-- ===== src/Tests/Data.antt =====
-- Test data that the examples share.
use libdynpm.Base.{ℕ, length-replicate, replicate, length, arith, ◌<◌}
use libdynpm.Text.Chars.{Bytes, codes, IsToken}
use libdynpm.Text.Buffer.{Buffer}
use libdynpm.Protocol.Frame.{IsMessageBuffer}
use libdynpm.Protocol.Header.{Header, IsHeader}

-- A buffer of the message size, with old contents.
abbrev pub empty_buffer : Buffer
empty_buffer = replicate 4096 7

pub empty_buffer-IsMessageBuffer : IsMessageBuffer empty_buffer
empty_buffer-IsMessageBuffer = length-replicate {A = ℕ} 4096 7

abbrev pub node7 : Bytes
node7 = codes "node7"

pub node7-IsToken : IsToken node7
node7-IsToken = ((λ e. cc e), ground arith)

pub node7_fits : length node7 < 200
node7_fits = omega arith

abbrev pub header : ℕ → Header
header type = record { source_type = 3; message_type = type }

pub header-IsHeader : (type : ℕ) → type < 22 → IsHeader (header type)
header-IsHeader type h = record { source = omega arith; message = omega arith }
