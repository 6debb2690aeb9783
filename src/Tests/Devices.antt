-- ===== src/Tests/Devices.antt =====
-- Two devices that come and go.
use harbour_sailfishconnect.Base.{ℕ, String, List, false, [], ◌∷◌, eqb, if◌then◌else◌, refl}
use harbour_sailfishconnect.App.Devices.{Device, new_model}
use harbour_sailfishconnect.App.Devices.Listed.{
  Lists, came, gone, Event, listen, is_there, devices-Lists,
}

abbrev phone : Device
phone = record { self = 1; id = "phone" }

abbrev tablet : Device
tablet = record { self = 2; id = "tablet" }

abbrev identity : ℕ → String
identity p = if eqb p 1 then "phone" else "tablet"

abbrev changes : List Event
changes = came phone ∷ came tablet ∷ came phone ∷ gone "phone" ∷ []

devices-Lists_example :
    Lists identity (listen changes (new_model [])).devices (λ id. is_there id changes false)
devices-Lists_example = devices-Lists identity changes (refl, (refl, (refl, (tt, tt))))
