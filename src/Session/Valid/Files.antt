-- ===== src/Session/Valid/Files.antt =====
-- recording_session.cpp: the invariant of a session over the functions that touch the output file.
use ivckolpak.Prelude.{
  ℕ, ◌+◌, ◌≡◌, refl, ◌∙◌, [], ◌∷◌, ◌++◌, Bool, true, false, Option, none, some, arith,
}
use ivckolpak.Prelude.Bytes.{Bytes, is_empty}
use ivckolpak.Session.Packet.{AvPacket}
use ivckolpak.Session.State.{
  CodecParams, Muxer, opened, wrote, dropped, trailed, closed, removed, Session, Library, OpenReply,
}
use ivckolpak.Config.Filename.{LocalTime}
use ivckolpak.Session.Muxer.{
  init_muxer, open_muxer, write_packet_to_file, io_with, outgoing, write_with, next_filename,
}
use ivckolpak.Session.Valid.{MuxerOk, IsBalanced, opens, closes, opens-append, closes-append}

-- The fields that a file function does not touch.
pub record SameCore (s t : Session) : Type 0 where
  pub cfg : t.cfg ≡ s.cfg
  pub state : t.state ≡ s.state
  pub pre : t.pre ≡ s.pre
  pub chunk_idx : t.chunk_idx ≡ s.chunk_idx

pub SameCore-trans : {s t u : Session} → SameCore s t → SameCore t u → SameCore s u
SameCore-trans a b = record {
  cfg = b.cfg ∙ a.cfg;
  state = b.state ∙ a.state;
  pre = b.pre ∙ a.pre;
  chunk_idx = b.chunk_idx ∙ a.chunk_idx;
}

-- What is known of the files of a session.
pub record FilesOk (s : Session) : Type 0 where
  pub muxer : MuxerOk s.out_fmt_ctx s.current_filename s.out_stream
  pub balanced : IsBalanced s

pub init_muxer-SameCore :
    (local : LocalTime) (r : OpenReply) (codec : Option CodecParams) (s : Session)
    → SameCore s (init_muxer local r codec s)
unfolding init_muxer
init_muxer-SameCore local r none s = record {
  cfg = refl;
  state = refl;
  pre = refl;
  chunk_idx = refl;
}
init_muxer-SameCore local r (some c) s = ground arith

not_empty : (xs : Bytes) (y : ℕ) (ys : Bytes) → is_empty (xs ++ y ∷ ys) ≡ false
not_empty [] y ys = refl
not_empty (x ∷ xs) y ys = refl

next_filename_named : (local : LocalTime) (s : Session) → is_empty (next_filename local s) ≡ false
unfolding next_filename
next_filename_named local s = not_empty s.cfg.camera_cfg.target_dir _ _

open_muxer-FilesOk :
    (r : OpenReply) (c : CodecParams) (s : Session)
    → s.out_fmt_ctx ≡ none
    → is_empty s.current_filename ≡ false
    → IsBalanced s
    → FilesOk (open_muxer r c s)
unfolding open_muxer
open_muxer-FilesOk r c s e n b =
    let name = s.current_filename in
    ground (
      arith,
      opens-append s.effects (opened name ∷ []),
      closes-append s.effects (opened name ∷ []),
      opens-append s.effects (opened name ∷ closed name ∷ []),
      closes-append s.effects (opened name ∷ closed name ∷ []),
    )

-- From no open file, `init_muxer` opens one or none; where it fails after the file was opened, it
-- is closed.
pub init_muxer-FilesOk :
    (local : LocalTime) (r : OpenReply) (codec : Option CodecParams) (s : Session)
    → s.out_fmt_ctx ≡ none
    → IsBalanced s
    → FilesOk (init_muxer local r codec s)
init_muxer-FilesOk local r none s e b =
    unfold init_muxer in record { muxer = ground arith; balanced = b }
init_muxer-FilesOk local r (some c) s e b =
    unfold init_muxer in open_muxer-FilesOk r c _ e (next_filename_named local s) b

-- A write leaves the output context and the files as they were.
pub record SameFiles (s t : Session) : Type 0 where
  pub core : SameCore s t
  pub out_fmt_ctx : t.out_fmt_ctx ≡ s.out_fmt_ctx
  pub current_filename : t.current_filename ≡ s.current_filename
  pub out_stream : t.out_stream ≡ s.out_stream
  pub opened_same : opens t.effects ≡ opens s.effects
  pub closed_same : closes t.effects ≡ closes s.effects

pub SameFiles-FilesOk : {s t : Session} → SameFiles s t → FilesOk s → FilesOk t
SameFiles-FilesOk {s} {t} w f = ground arith

pub SameFiles-trans : {s t u : Session} → SameFiles s t → SameFiles t u → SameFiles s u
SameFiles-trans a b = record {
  core = SameCore-trans a.core b.core;
  out_fmt_ctx = b.out_fmt_ctx ∙ a.out_fmt_ctx;
  current_filename = b.current_filename ∙ a.current_filename;
  out_stream = b.out_stream ∙ a.out_stream;
  opened_same = b.opened_same ∙ a.opened_same;
  closed_same = b.closed_same ∙ a.closed_same;
}

pub SameFiles-refl : (s : Session) → SameFiles s s
SameFiles-refl s = record {
  core = record { cfg = refl; state = refl; pre = refl; chunk_idx = refl };
  out_fmt_ctx = refl;
  current_filename = refl;
  out_stream = refl;
  opened_same = refl;
  closed_same = refl;
}

write_with-SameFiles :
    (lib : Library) (m : Option Muxer) (p : AvPacket) (s : Session)
    → SameFiles s (write_with lib m p s)
unfolding write_with
write_with-SameFiles lib none p s = record {
  core = record { cfg = refl; state = refl; pre = refl; chunk_idx = refl };
  out_fmt_ctx = refl;
  current_filename = refl;
  out_stream = refl;
  opened_same = omega (arith, opens-append s.effects (dropped p ∷ []));
  closed_same = omega (arith, closes-append s.effects (dropped p ∷ []));
}
write_with-SameFiles lib (some m) p s = record {
  core = record { cfg = refl; state = refl; pre = refl; chunk_idx = refl };
  out_fmt_ctx = refl;
  current_filename = refl;
  out_stream = refl;
  opened_same =
      omega
        (arith, opens-append s.effects (wrote m.path (outgoing lib m s.analyzer.time_base p) ∷ []));
  closed_same =
      omega (
        arith,
        closes-append s.effects (wrote m.path (outgoing lib m s.analyzer.time_base p) ∷ []),
      );
}

pub write_packet_to_file-SameFiles :
    (lib : Library) (p : Option AvPacket) (s : Session) → SameFiles s (write_packet_to_file lib p s)
write_packet_to_file-SameFiles lib none s = unfold write_packet_to_file in SameFiles-refl s
write_packet_to_file-SameFiles lib (some p) s =
    unfold write_packet_to_file in write_with-SameFiles lib s.out_fmt_ctx p s

-- After the file's end the context is still set, and its file is closed.
pub io_balanced :
    (path : Bytes) (ok : Bool) (m : Muxer) (s : Session)
    → m.has_pb ≡ true
    → opens s.effects ≡ closes s.effects + 1
    → opens (io_with path ok (some m) s).0.effects ≡ closes (io_with path ok (some m) s).0.effects
unfolding io_with
io_balanced path true m s h b = ground (
  arith,
  opens-append s.effects (trailed m.path ∷ closed m.path ∷ []),
  closes-append s.effects (trailed m.path ∷ closed m.path ∷ []),
)
io_balanced path false m s h b = ground (
  arith,
  opens-append s.effects (trailed m.path ∷ closed m.path ∷ removed path ∷ []),
  closes-append s.effects (trailed m.path ∷ closed m.path ∷ removed path ∷ []),
)

pub io_with-SameCore :
    (path : Bytes) (ok : Bool) (m : Option Muxer) (s : Session) → SameCore s (io_with path ok m s).0
unfolding io_with
io_with-SameCore path ok none s = record { cfg = refl; state = refl; pre = refl; chunk_idx = refl }
io_with-SameCore path ok (some m) s = record {
  cfg = refl;
  state = refl;
  pre = refl;
  chunk_idx = refl;
}
