-- ===== src/Tests/Searches.antt =====
-- The reading of a configuration, and the searches in it.
use libdynpm.Base.{◌≡◌, [], ◌∷◌, List, All, some, true, arith}
use libdynpm.Text.Chars.{codes}
use libdynpm.Config.{ProcessEntry, Configuration}
use libdynpm.Text.Outcome.{done}
use libdynpm.Config.Load.{
  Statement, process, wrapping, conf_parse, at_start, processes_of, plugins_of,
}
use libdynpm.Config.Load.Entries.{IsEntry, filled, with_size, conf_parse_lem}

abbrev configuration : Configuration
configuration = record {
  process_entries =
      record { name = codes "launcher"; port = 7000; threads = 2; host = codes "n0" }
      ∷ record { name = codes "nodeman"; port = 7001; threads = 4; host = codes "n1" }
      ∷ [];
  plugin_entries = record { plugin_type = codes "io"; plugin_name = codes "file" } ∷ [];
}

-- A plugin between two processes
abbrev statements : List Statement
statements =
    process (record { name = codes "launcher"; port = 7000; threads = 2; host = codes "n0" })
    ∷ wrapping (record { plugin_type = codes "io"; plugin_name = codes "file" })
    ∷ process (record { name = codes "nodeman"; port = 7001; threads = 4; host = codes "n1" })
    ∷ []

statements-IsEntry : All IsEntry statements
statements-IsEntry =
    ((omega arith, omega arith), ((omega arith, omega arith), ((omega arith, omega arith), tt)))

conf_parse_lem_example :
    conf_parse (some (with_size statements)) at_start
    ≡ done (filled (processes_of statements) (plugins_of statements), true)
conf_parse_lem_example = conf_parse_lem statements statements-IsEntry

abbrev third : ProcessEntry
third = record { name = codes "extra"; port = 7002; threads = 1; host = codes "n2" }
