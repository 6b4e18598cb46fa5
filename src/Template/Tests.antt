-- ===== src/Template/Tests.antt =====
-- The devices at concrete values.
use getodac.Common.Bytes.{Bytes, codes, bytes_eq}
use getodac.Common.Maps.{find}
use getodac.Common.Numerals.{digit_value}
use getodac.Common.{◌≡◌, refl, List, [], ◌∷◌, none, some}
use getodac.Exceptions.{ok, throw}
use getodac.Http.Request.{is_space}
use getodac.Http.Response.{response}
use getodac.Restful.Route.{Captures}
use getodac.Template.Devices.{patch_device-get_devices}
use getodac.Template.{
  Json, device_id, stoul, device_at, get_devices, post_devices, patch_device, delete_device,
  bad_request, json_error, append_piece,
}

program : Unit {0}
unfolding get_devices post_devices patch_device delete_device append_piece bytes_eq find stoul
    digit_value is_space
program = tt

-- A text that is an array with a string and a number, and one that is an object with a name.
abbrev json : Json
json = record {
  elements = λ s. some (some (codes "a") ∷ none ∷ []);
  name = λ s. some (codes "new");
  dump = λ ds. codes "dump";
}

abbrev devices : List Bytes
devices = codes "x" ∷ codes "y" ∷ []

abbrev second : Captures
second = (device_id, codes "1") ∷ []

abbrev third : Captures
third = (device_id, codes "2") ∷ []

tests :
    ((patch_device json second (ok []) devices).devices ≡ codes "x" ∷ codes "new" ∷ [])
    × ((delete_device second (ok []) devices).devices ≡ codes "x" ∷ [])
    × ((delete_device third (ok []) devices).answer ≡ throw bad_request)
unfolding program
tests = (refl, refl, refl)

-- An array that holds something else than strings leaves the devices replaced in part.
post_test :
    post_devices json (ok []) devices
    ≡ record { devices = codes "a" ∷ []; answer = throw json_error }
unfolding program
post_test = refl

second_named : find device_id second ≡ some (codes "1")
unfolding program
second_named = refl

second_number : stoul (codes "1") ≡ ok 1
unfolding program
second_number = refl

second_there : device_at 1 devices ≡ some (codes "y")
unfolding program
second_there = refl

patch_device-get_devices_example :
    (get_devices json second (ok []) (patch_device json second (ok []) devices).devices).answer
    ≡ ok (response 200 (codes "dump") ((codes "Content-Type", codes "application/json") ∷ []))
patch_device-get_devices_example =
    patch_device-get_devices json second [] [] (codes "1") (codes "y") (codes "new") 1 devices
      second_named second_number second_there refl
