-- ===== src/Tests/Payloads.antt =====
-- The messages with a payload, and the resource offer.
use libdynpm.Base.{ℕ, ◌≡◌, refl, arith, replicate, length-replicate, some}
use libdynpm.Text.Outcome.{done, fault, ◌>>=◌}
use libdynpm.Protocol.Dynamic.{
  DynamicPmLaunchMsg, IsDynamicPmLaunchMsg, serialize_dynamic_pm_launch_msg,
  serialize_dynamic_pm_launch_msg_too_large,
}
use libdynpm.Protocol.Offer.{
  ResourceOfferMsg, IsResourceOfferMsg, low_half, store_low, serialize_resource_offer_msg,
  deserialize_resource_offer_msg, deserialize-serialize_resource_offer_msg,
}
use libdynpm.Tests.Data.{empty_buffer, empty_buffer-IsMessageBuffer, header, header-IsHeader}

-- A payload of 4000 bytes
abbrev large_launch : DynamicPmLaunchMsg
large_launch = record { id = 3; type = 1; payload_bytes = 4000; payload = some (replicate 4000 1) }

large_launch-IsDynamicPmLaunchMsg : IsDynamicPmLaunchMsg large_launch
large_launch-IsDynamicPmLaunchMsg = record {
  id = omega arith;
  type = omega arith;
  payload_bytes = omega arith;
}

serialize_dynamic_pm_launch_msg_too_large_example :
    serialize_dynamic_pm_launch_msg (header 14) large_launch empty_buffer ≡ fault
serialize_dynamic_pm_launch_msg_too_large_example =
    serialize_dynamic_pm_launch_msg_too_large (header 14) large_launch (replicate 4000 1)
      empty_buffer (header-IsHeader 14 (omega arith)) large_launch-IsDynamicPmLaunchMsg refl
      (length-replicate {A = ℕ} 4000 1) (omega arith) empty_buffer-IsMessageBuffer

abbrev offer : ResourceOfferMsg
offer = record {
  application_index = 1;
  partition_index = 2;
  node_count = 8;
  creation_time = 4294967301;
  end_time = 7;
}

-- What `malloc` returns: all bits of the times set.
abbrev fresh_offer : ResourceOfferMsg
fresh_offer = record {
  application_index = 0;
  partition_index = 0;
  node_count = 0;
  creation_time = 18446744073709551615;
  end_time = 18446744073709551615;
}

offer-IsResourceOfferMsg : IsResourceOfferMsg offer
offer-IsResourceOfferMsg = record {
  application_index = omega arith;
  partition_index = omega arith;
  node_count = omega arith;
  creation_time = omega arith;
  end_time = omega arith;
}

deserialize-serialize_resource_offer_msg_example :
    (do
      b' ← serialize_resource_offer_msg (header 6) offer empty_buffer
      deserialize_resource_offer_msg fresh_offer b')
    ≡ done (record offer {
      creation_time = store_low 18446744073709551615 (low_half 4294967301);
      end_time = store_low 18446744073709551615 (low_half 7);
    })
deserialize-serialize_resource_offer_msg_example =
    deserialize-serialize_resource_offer_msg (header 6) offer fresh_offer empty_buffer
      (header-IsHeader 6 (omega arith)) offer-IsResourceOfferMsg empty_buffer-IsMessageBuffer
