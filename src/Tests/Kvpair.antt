-- ===== src/Tests/Kvpair.antt =====
-- The laws of hashes and default records at concrete inputs.
use zkc_state.Hash.{Hash}
use zkc_state.Tests.Instances.{write_number}

abbrev hash_1 : Hash
hash_1 = record { bytes = write_number 1 }

abbrev hash_2 : Hash
hash_2 = record { bytes = write_number 2 }
