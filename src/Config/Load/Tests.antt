-- ===== src/Config/Load/Tests.antt =====
-- A configuration file, and the theorem at a file whose camera has no serial number.
use ivckolpak.Prelude.{◌≡◌, ◌≢◌, refl, List, [], ◌∷◌, Option, none}
use ivckolpak.Prelude.Bytes.{Bytes, codes, bytes_eq}
use ivckolpak.Prelude.Double.{Double}
use ivckolpak.Config.Load.{default_global}
use ivckolpak.Config.Load.File.{parsed, error, no_rtsp, no_serialid, load_config}
use ivckolpak.Config.Load.Serial.{load_config-no_serialid}

-- A `stod` that reads no number.
abbrev stod : Bytes → Option Double
stod text = none

abbrev nameless : List Bytes
nameless = codes "[camera]" ∷ codes "name = Gate" ∷ []

skipped : load_config stod nameless ≡ parsed (record { global = default_global; cameras = [] })
unfolding load_config bytes_eq
skipped = refl

without_url :
    load_config stod (codes " [camera] " ∷ codes "serialid=S1 " ∷ codes "# rtsp=x" ∷ [])
    ≡ error no_rtsp
unfolding load_config bytes_eq
without_url = refl

load_config-no_serialid_example : load_config stod nameless ≢ error no_serialid
load_config-no_serialid_example = load_config-no_serialid stod nameless
