-- ===== src/Template/Devices.antt =====
-- What the handlers make of the devices.
use getodac.Common.Bytes.{Bytes, codes}
use getodac.Common.Maps.{find}
use getodac.Common.{
  ℕ, zero, suc, ◌≡◌, ◌∙◌, refl, ap, List, [], ◌∷◌, ◌++◌, Option, none, some, take, drop,
}
use getodac.Exceptions.{Thrown, Result, ok, throw, ◌>>=◌}
use getodac.Http.Response.{response}
use getodac.Restful.Route.{Captures}
use getodac.Template.{
  bad_request, Json, device_id, stoul, device_at, find_device, list_devices, get_devices, settle,
  captured, read_name, patch_device, delete_device,
}

device_at-patched :
    (i : ℕ) (ds : List Bytes) (old n : Bytes)
    → device_at i ds ≡ some old
    → device_at i (take i ds ++ n ∷ drop (suc i) ds) ≡ some n
unfolding device_at
device_at-patched i [] old n h = absurd cc
device_at-patched zero (d ∷ ds) old n h = refl
device_at-patched (suc i) (d ∷ ds) old n h = device_at-patched i ds old n h

abbrev picked : ℕ → Option Bytes → Result (ℕ × Bytes)
picked idx none = throw bad_request
picked idx (some d) = ok (idx, d)

find_device-at :
    (text d : Bytes) (i : ℕ) (ds : List Bytes)
    → stoul text ≡ ok i
    → device_at i ds ≡ some d
    → find_device text ds ≡ ok (i, d)
unfolding find_device
find_device-at text d i ds number there =
    ap (λ r. r >>= λ idx. picked idx (device_at idx ds)) number ∙ ap (picked i) there

get_devices-at :
    (json : Json) (captures : Captures) (later text d : Bytes) (i : ℕ) (ds : List Bytes)
    → find device_id captures ≡ some text
    → find_device text ds ≡ ok (i, d)
    → (get_devices json captures (ok later) ds).answer
      ≡ ok (
          response 200
            (json.dump ((i, d) ∷ []))
            ((codes "Content-Type", codes "application/json") ∷ []))
unfolding get_devices list_devices
get_devices-at json captures later text d i ds named found =
    let listed : list_devices captures ds ≡ ok ((i, d) ∷ []) =
      rw (named, found, list_devices) refl in
    rw listed refl

patch_device-at :
    (json : Json) (captures : Captures) (body text d n : Bytes) (i : ℕ) (ds : List Bytes)
    → find device_id captures ≡ some text
    → find_device text ds ≡ ok (i, d)
    → json.name body ≡ some n
    → (patch_device json captures (ok body) ds).devices ≡ take i ds ++ n ∷ drop (suc i) ds
unfolding patch_device captured read_name settle
patch_device-at json captures body text d n i ds named found new_is =
    let taken : captured captures ≡ ok text = rw (named, captured) refl in
    let read : read_name json body ≡ ok n = rw (new_is, read_name) refl in
    rw (taken, found, read) refl

-- A device that a PATCH request has renamed has its new name in the answer to a GET request for it,
-- if the number of its URL is that of a device.
pub patch_device-get_devices :
    (json : Json) (captures : Captures) (body later text old n : Bytes) (i : ℕ)
    (devices : List Bytes)
    → find device_id captures ≡ some text
    → stoul text ≡ ok i
    → device_at i devices ≡ some old
    → json.name body ≡ some n
    → (get_devices json captures
        (ok later)
        (patch_device json captures (ok body) devices).devices).answer
      ≡ ok (
          response 200
            (json.dump ((i, n) ∷ []))
            ((codes "Content-Type", codes "application/json") ∷ []))
patch_device-get_devices json captures body later text old n i devices named number old_is new_is =
    let changed =
      patch_device-at json captures body text old n i devices named
        (find_device-at text old i devices number old_is) new_is in
    ap (λ ds. (get_devices json captures (ok later) ds).answer) changed
    ∙ get_devices-at json captures later text n i (take i devices ++ n ∷ drop (suc i) devices) named
        (find_device-at text n i (take i devices ++ n ∷ drop (suc i) devices) number
          (device_at-patched i devices old n old_is))

settle-throw :
    (devices : List Bytes) (r : Result (List Bytes)) (e : Thrown)
    → (settle devices r).answer ≡ throw e
    → (settle devices r).devices ≡ devices
unfolding settle
settle-throw devices (ok changed) e h = absurd cc
settle-throw devices (throw f) e h = refl

-- A PATCH or DELETE request that fails, for any reason, leaves the devices as they are.
pub failed-IsUnchanged :
    (json : Json) (captures : Captures) (arrived : Result Bytes) (devices : List Bytes)
    (e f : Thrown)
    → ((patch_device json captures arrived devices).answer ≡ throw e
        → (patch_device json captures arrived devices).devices ≡ devices)
      × ((delete_device captures arrived devices).answer ≡ throw f
          → (delete_device captures arrived devices).devices ≡ devices)
unfolding patch_device delete_device
failed-IsUnchanged json captures arrived devices e f =
    (settle-throw devices _ e, settle-throw devices _ f)
