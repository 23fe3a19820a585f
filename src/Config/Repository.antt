-- ===== src/Config/Repository.antt =====
-- config_repository.hpp: the cameras under their serial numbers, as `load_config` registers them.
use ivckolpak.Prelude.{List, [], ◌∷◌, Option, none, some}
use ivckolpak.Prelude.Bytes.{Bytes}
use ivckolpak.Prelude.Assoc.{Assoc, lookup, insert}
use ivckolpak.Config.Types.{CameraConfig, GlobalConfig, ParsedConfig}

pub record Repository : Type 0 where
  pub cameras : Assoc CameraConfig
  pub global : Option GlobalConfig

abbrev pub empty : Repository
empty = record { cameras = []; global = none }

unfoldable pub register_camera : Bytes → CameraConfig → Repository → Repository
unfolding insert
register_camera id cfg r = record r { cameras = insert id cfg r.cameras }

-- None is the null pointer.
unfoldable pub get_camera : Bytes → Repository → Option CameraConfig
unfolding lookup
get_camera id r = lookup id r.cameras

unfoldable pub set_global : GlobalConfig → Repository → Repository
set_global g r = record r { global = some g }

unfoldable pub get_global : Repository → Option GlobalConfig
get_global r = r.global

-- The cameras of a file, each registered when it is added to the result.
unfoldable pub register_all : List CameraConfig → Repository → Repository
unfolding register_camera
register_all [] r = r
register_all (c ∷ cs) r = register_all cs (register_camera c.serialid c r)

-- What a `load_config` that returns leaves in the repository.
unfoldable pub registered : ParsedConfig → Repository → Repository
unfolding register_all set_global
registered cfg r = set_global cfg.global (register_all cfg.cameras r)
