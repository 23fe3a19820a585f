-- ===== src/Session/Valid.antt =====
-- The invariant of a session between two calls, and what the file functions do to it.
pub mod Files
pub mod Rotate
pub mod Push
pub mod Control
use ivckolpak.Prelude.{
  ℕ, zero, suc, ◌+◌, ◌≡◌, refl, sym, ◌∙◌, List, [], ◌∷◌, ◌++◌, Bool, true, false, Option, none,
  some, arith, if◌then◌else◌,
}
use ivckolpak.Prelude.Int.{ℤ, pos, ◌≤ℤ◌}
use ivckolpak.Prelude.Bytes.{Bytes, is_empty}
use ivckolpak.Session.PreBuffer.{PreBuffer}
use ivckolpak.Session.PreBuffer
use ivckolpak.Session.PreBuffer.Sync.{InSync}
use ivckolpak.Session.PreBuffer.Limits.{IsBounded}
use ivckolpak.Session.State.{
  State, idle, pre_buffer, recording, finalizing, post_buffer, Muxer, Effect, opened, wrote,
  dropped, trailed, closed, removed, notified, Session,
}

-- How often a file was opened, and how often one was closed.
abbrev pub opens : List Effect → ℕ
opens [] = 0
opens (opened _ ∷ es) = suc (opens es)
opens (_ ∷ es) = opens es

abbrev pub closes : List Effect → ℕ
closes [] = 0
closes (closed _ ∷ es) = suc (closes es)
closes (_ ∷ es) = closes es

-- The output context, if any, writes the current file, which has a name and is open, and its stream is
-- set.
abbrev pub MuxerOk : Option Muxer → Bytes → Bool → Type 0
MuxerOk none name stream = Unit
MuxerOk (some m) name stream =
    (m.path ≡ name) × (m.has_pb ≡ true) × (stream ≡ true) × (is_empty name ≡ false)

abbrev pub open_files : Option Muxer → ℕ
open_files none = 0
open_files (some m) = 1

abbrev pub IsBalanced : Session → Type 0
IsBalanced s = opens s.effects ≡ closes s.effects + open_files s.out_fmt_ctx

-- What each state promises; no call ends in FINALIZING.
abbrev pub Phase : State → Session → Type 0
Phase idle s = s.out_fmt_ctx ≡ none
Phase pre_buffer s =
    (s.out_fmt_ctx ≡ none) × InSync s.pre × IsBounded s.cfg.pre_buffer_iframes s.pre
Phase recording s = s.pre ≡ PreBuffer.empty
Phase post_buffer s = s.pre ≡ PreBuffer.empty
Phase finalizing s = ⊥

pub record IsValid (s : Session) : Type 0 where
  pub limit : pos 0 ≤ℤ s.cfg.pre_buffer_iframes
  pub phase : Phase s.state s
  pub muxer : MuxerOk s.out_fmt_ctx s.current_filename s.out_stream
  pub balanced : IsBalanced s

pub opens-append : (es fs : List Effect) → opens (es ++ fs) ≡ opens es + opens fs
opens-append [] fs = omega arith
opens-append (opened p ∷ es) fs = omega (arith, opens-append es fs)
opens-append (wrote p a ∷ es) fs = opens-append es fs
opens-append (_ ∷ es) fs = opens-append es fs

pub closes-append : (es fs : List Effect) → closes (es ++ fs) ≡ closes es + closes fs
closes-append [] fs = omega arith
closes-append (closed p ∷ es) fs = omega (arith, closes-append es fs)
closes-append (wrote p a ∷ es) fs = closes-append es fs
closes-append (_ ∷ es) fs = closes-append es fs
