-- ===== src/App/Crash/Tests.antt =====
-- Writes of the configuration file of src/server.rs, one of them on a full disk.
use propmonitor.Base.{codes, [], ◌∷◌, Text, true, false, none, some, err, ◌≡◌, refl}
use propmonitor.App.{write_config_file}
use propmonitor.App.Crash.{stored, Whole, Every, write_atomic-write_config_file}
use propmonitor.Yaml.Atomic.{
  not_written, Disk, Answers, rename_tmp, sync_tmp, write_tmp, write_atomic,
}
use propmonitor.Samples.{natural, running, all_well}

abbrev document : Text
document = codes "mode: cw"

abbrev disk : Disk
disk = record { path = some (stored running.disk); tmp = none }

abbrev in_two_parts : Answers
in_two_parts = record {
  create_ok = true;
  parts = 3 ∷ 8 ∷ [];
  write_ok = true;
  sync_ok = true;
  rename_ok = true;
}

write_atomic-write_config_file_example :
    Every
      (Whole (some (stored running.disk)) document)
      (write_atomic document in_two_parts disk).visited
    × ((write_atomic document in_two_parts disk).disk.path
        ≡ some (stored (write_config_file natural all_well running document).0.disk))
write_atomic-write_config_file_example =
    write_atomic-write_config_file natural all_well running document in_two_parts disk refl
      (unfold write_atomic write_tmp sync_tmp rename_tmp in refl)

-- On a full disk a part of the temporary file stays.
disk_full : write_atomic document (record in_two_parts { write_ok = false }) disk ≡ record {
  visited =
      disk
      ∷ record disk { tmp = some (record { contents = []; synced = false }) }
      ∷ record disk { tmp = some (record { contents = codes "mod"; synced = false }) }
      ∷ record disk { tmp = some (record { contents = document; synced = false }) }
      ∷ [];
  disk = record disk { tmp = some (record { contents = document; synced = false }) };
  result = err not_written;
}
unfolding write_atomic write_tmp
disk_full = refl
