-- ===== src/Receiver/Switch.antt =====
-- What Receiver::set_recording (tools/receiver/receiver.cpp) answers, and what it leaves.
use ipc_data_relay.Common.{
  ◌≡◌, ◌↔◌, ◌⊎◌, inl, inr, refl, sym, ap, subst, arith, ℕ, Bool, true, false, Bool-cases,
  if◌then◌else◌,
}
use Prim.Native.String.{String}
use ipc_data_relay.Capture.Writer.{
  CaptureWriter, CallResult, done, failed_with, WriteResult, wrote, short, is_open, open_file,
  start_file, write_file_header, flush,
}
use ipc_data_relay.Wire.{k_version}
use ipc_data_relay.Receiver.State.{Receiver, refresh_capture_stats}
use ipc_data_relay.Receiver.Command.{Disk, set_recording, after_open, after_flush, try_flush}

-- The result of a switch that is to set recording to `on`.
abbrev pub Leaves : Receiver → Bool → Receiver × Bool → Type 0
Leaves r on (q, result) =
    (result ≡ true → (q.recording ≡ on) × (q.stats.recording_enabled ≡ on))
    × (result ≡ false → q.recording ≡ r.recording)
    × (q.reassembler ≡ r.reassembler)

-- The file can be written: it is open already, or can be opened and takes its header.
abbrev pub CanRecord : Receiver → Disk → Type 0
CanRecord r disk =
    (r.writer.failed ≡ false)
    × ((is_open r.writer ≡ true) ⊎ ((disk.opened ≡ done) × (disk.header ≡ wrote)))

abbrev pub Switches : Receiver → Bool → Disk → Receiver × Bool → Type 0
Switches r true disk (q, result) =
    ((result ≡ true) ↔ CanRecord r disk)
    × (result ≡ true → is_open q.writer ≡ true)
    × (is_open r.writer ≡ true → q.writer ≡ r.writer)
    × Leaves r true (q, result)
Switches r false disk (q, result) = (result ≡ true) × Leaves r false (q, result)

if-elim :
    (P : Receiver × Bool → Type 0) (b : Bool) (x y : Receiver × Bool)
    → (b ≡ true → P x)
    → (b ≡ false → P y)
    → P (if b then x else y)
if-elim P true x y h k = h refl
if-elim P false x y h k = k refl

refused : (r : Receiver) (disk : Disk) → r.writer.failed ≡ true → Switches r true disk (r, false)
refused r disk f = (
  (λ e. cc, λ can. absurd (cc)),
  λ e. absurd (cc),
  λ o. refl,
  (λ e. absurd (cc), λ e. refl, refl),
)

resumed :
    (r : Receiver) (disk : Disk)
    → r.writer.failed ≡ false
    → is_open r.writer ≡ true
    → Switches r true disk (refresh_capture_stats (record r { recording = true }), true)
unfolding refresh_capture_stats
resumed r disk f o =
    ((λ e. (f, inl o), λ can. refl), λ e. o, λ e. refl, (λ e. (refl, refl), λ e. absurd (cc), refl))

opened :
    (r : Receiver) (disk : Disk) (created_ns : ℕ) (c : CallResult) (h : WriteResult)
    → disk.opened ≡ c
    → disk.header ≡ h
    → r.writer.failed ≡ false
    → is_open r.writer ≡ false
    → Switches r true disk
        (after_open r (start_file r.writer r.cfg.capture_file created_ns k_version c h))
unfolding after_open start_file write_file_header refresh_capture_stats
opened r disk created_ns (failed_with e) h c_is h_is f shut = (
  (λ t. absurd (cc), λ can. elim can.1 [ inl o ↦ absurd (cc) | inr q ↦ absurd (cc) ]),
  λ t. absurd (cc),
  λ o. absurd (cc),
  (λ t. absurd (cc), λ t. refl, refl),
)
opened r disk created_ns done (short k e) c_is h_is f shut = (
  (λ t. absurd (cc), λ can. elim can.1 [ inl o ↦ absurd (cc) | inr q ↦ absurd (cc) ]),
  λ t. absurd (cc),
  λ o. absurd (cc),
  (λ t. absurd (cc), λ t. refl, refl),
)
opened r disk created_ns done wrote c_is h_is f shut = (
  (λ t. (f, inr (c_is, h_is)), λ can. refl),
  λ t. refl,
  λ o. absurd (cc),
  (λ t. (refl, refl), λ t. absurd (cc), refl),
)

open_file_start :
    (w : CaptureWriter) (path : String) (created_ns version : ℕ) (c : CallResult) (h : WriteResult)
    → is_open w ≡ false
    → open_file w path created_ns version c h ≡ start_file w path created_ns version c h
unfolding open_file
open_file_start w path created_ns version c h shut = ground arith

after_flush-reassembler :
    (r : Receiver) (w : CaptureWriter × Bool) → (after_flush r w).0.reassembler ≡ r.reassembler
unfolding after_flush
after_flush-reassembler r (w, true) = refl
after_flush-reassembler r (w, false) = refl

try_flush-reassembler :
    (b : Bool) (r : Receiver) (sync : Bool) (c d : CallResult)
    → (if b then (try_flush r sync c d).0 else r).reassembler ≡ r.reassembler
unfolding try_flush
try_flush-reassembler false r sync c d = refl
try_flush-reassembler true r sync c d = elim (Bool-cases (is_open r.writer)) [
  | inl o ↦ rw o (after_flush-reassembler r (flush r.writer sync c d))
  | inr shut ↦ rw shut refl
]

-- set_recording(true) answers true exactly if the writer has not failed, and its file is open or can be
-- opened and takes its header. Then a file is open, recording is on, and the statistics show it;
-- otherwise recording stays as it was. A file that was open is left as it is. set_recording(false)
-- always answers true; recording is off, and the statistics show it. Messages in flight are not touched.
pub set_recording-Switches :
    (r : Receiver) (on : Bool) (disk : Disk) → Switches r on disk (set_recording r on disk)
unfolding set_recording open_file refresh_capture_stats
set_recording-Switches r true disk =
    let P : Receiver × Bool → Type 0 = λ x. Switches r true disk x in
    if-elim P r.writer.failed _ _ (refused r disk) (λ fine.
      if-elim P (is_open r.writer) _ _ (resumed r disk fine) (λ shut.
        subst P (ap (after_open r) (sym (open_file_start r.writer _ _ _ _ _ shut)))
          (opened r disk disk.created_ns disk.opened disk.header refl refl fine shut)))
set_recording-Switches r false disk = (
  refl,
  (
    λ e. (refl, refl),
    λ e. absurd (cc),
    try_flush-reassembler r.recording r true disk.flushed disk.synced,
  ),
)
