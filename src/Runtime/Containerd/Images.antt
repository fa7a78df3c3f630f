-- ===== src/Runtime/Containerd/Images.antt =====
-- pkg/runtime/containerd.go and pkg/runtime/containerd/progress.go: PullImage, and the goroutine that
-- keeps the progress of a pull up to date. The goroutine runs beside the handler of the image in steps,
-- each with one call that locks the progress, or with the read of the layers; a run is a list of the
-- calls of the handler and these steps, in the order in which they happen. GetLayers takes no lock; a
-- write in the middle of its read is not modelled.
pub mod Laws
use mathlib.Core.List.{map}
use mathlib.Core.Option
use eliot.Prelude.{
  ℕ, Bytes, codes, Bool, true, false, not, List, [], ◌∷◌, ◌++◌, Option, none, some, if◌then◌else◌,
  Outcome, ok, err, crash, Error, not_supported, ◌>>=◌, ◌==◌, bytes_eq, ◌≡◌, refl, sym, ap, ◌∙◌,
  lookup, Bool-cases, inl, inr, ◌↔◌, lookup-map_values, ◌||◌,
}
use eliot.Progress.{
  Status, ImageFetch, done, add, set_to_waiting, set_to_downloading, set_to_done, all_done,
  get_layers,
}
use eliot.Progress.Laws.{
  Op, op_add, op_waiting, op_downloading, op_done, op_failed, op_all_done, run_op, run_ops,
}

-- content.Status, of a download that goes on
pub record Active : Type 0 where
  pub ref : Bytes
  pub offset : ℕ
  pub total : ℕ

-- What Info says of a content: created after the start of the pull or before, missing, or an error.
pub data InfoAnswer : Type 0 where
  created_after : Bool → InfoAnswer
  info_missing info_failed : InfoAnswer

unfoldable pub contains : List Bytes → Bytes → Bool
contains [] value = false
contains (item ∷ source) value = item == value || contains source value

unfoldable pub filter : List Status → List Bytes → List Status
unfolding contains
filter [] refs = []
filter (status ∷ statuses) refs =
    let rest = filter statuses refs in if contains refs status.ref then rest else status ∷ rest

-- After an error the time of creation is zero, which is before every start.
unfoldable pub update_layer : InfoAnswer → Bytes → ImageFetch → ImageFetch
update_layer (created_after true) ref s = set_to_done s ref
update_layer (created_after false) ref s = s
update_layer info_missing ref s = set_to_waiting s ref
update_layer info_failed ref s = s

-- imagespecs.Descriptor, with the reference that MakeRefKey gives it
pub record Descriptor : Type 0 where
  pub media_type : Bytes
  pub ref_key : Bytes
  pub digest : Bytes

-- The handler of a pull.
unfoldable pub handle : Descriptor → ImageFetch → ImageFetch
handle desc s =
    if desc.media_type == codes "application/vnd.docker.distribution.manifest.v1+prettyjws"
    then s
    else add s desc.ref_key desc.digest

-- What containerd says at a step: the downloads that go on, and what Info says of a digest.
pub record Answers : Type 0 where
  pub active : Outcome (List Active)
  pub info : Bytes → InfoAnswer

-- Where the goroutine is: before a tick, in the loop over the downloads, with those that are left and
-- the references of all, or in the loop over the layers, with those that are left.
pub data Updater : Type 0 where
  idle : Updater
  downloads : List Active → List Bytes → Updater
  layers : List Status → Updater

-- The progress, and the goroutine.
pub record Pulling : Type 0 where
  pub progress : ImageFetch
  pub updater : Updater

pub data Event : Type 0 where
  handled : Descriptor → Event
  updated : Answers → Event

-- What the tick begins with; an error is logged, and the next tick is waited for.
abbrev pub listed : Outcome (List Active) → Updater
listed (ok active) = downloads active (map (λ (a : Active). a.ref) active)
listed (err e) = idle
listed crash = idle

-- Platforms are told apart by the matcher of package platforms.
module _ {Platform : Type 0} (matches : Platform → Bool) where
  unfoldable pub platform_exist : List Platform → Bool
  platform_exist [] = false
  platform_exist (p ∷ supported) = if matches p then true else platform_exist supported

-- The order of a range loop over the layers, and digest.FromString.
module _ (order : List Status → List Status) (from_string : Bytes → Bytes) where
  -- One step of UpdateFetchProgress.
  unfoldable pub update_step : Answers → ImageFetch → Updater → Pulling
  unfolding update_layer filter
  update_step answers s idle = record { progress = s; updater = listed answers.active }
  update_step answers s (downloads [] refs) = record {
    progress = s;
    updater = layers (filter (get_layers order s) refs);
  }
  update_step answers s (downloads (a ∷ rest) refs) = record {
    progress = set_to_downloading s a.ref a.offset a.total;
    updater = downloads rest refs;
  }
  update_step answers s (layers []) = record { progress = s; updater = idle }
  update_step answers s (layers (layer ∷ rest)) = record {
    progress = update_layer (answers.info (from_string layer.digest)) layer.ref s;
    updater = layers rest;
  }

  unfoldable pub run_event : Event → Pulling → Pulling
  unfolding handle update_step
  run_event (handled desc) p = record p { progress = handle desc p.progress }
  run_event (updated answers) p = update_step answers p.progress p.updater

  unfoldable pub run_events : List Event → Pulling → Pulling
  unfolding run_event
  run_events [] p = p
  run_events (e ∷ es) p = run_events es (run_event e p)

  module _ {Platform : Type 0} (matches : Platform → Bool) where
    -- The answers of containerd to a pull, the events up to its end, and the steps of the goroutine
    -- behind it, until the goroutine sees that the pull is over.
    pub record Pull : Type 0 where
      pub connected : Outcome (Unit {0})
      pub pulled : Outcome (Unit {0})
      pub supported : Outcome (List Platform)
      pub available : Outcome Bool
      pub unpacked : Outcome (Unit {0})
      pub during : List Event
      pub late : List Answers

    unfoldable pub supports : List Platform → Outcome (Unit {0})
    unfolding platform_exist
    supports platforms = if platform_exist matches platforms then ok tt else err not_supported

    unfoldable pub is_available : Bool → Outcome (Unit {0})
    is_available true = ok tt
    is_available false = err not_supported

    -- The result of PullImage.
    unfoldable pub pull_result : Pull → Outcome (Unit {0})
    unfolding supports is_available
    pull_result p = do
      _ ← p.connected
      _ ← p.pulled
      platforms ← p.supported
      _ ← supports platforms
      available ← p.available
      _ ← is_available available
      p.unpacked

    -- The progress: AllDone is called where nothing failed.
    unfoldable pub finished : Outcome (Unit {0}) → ImageFetch → ImageFetch
    finished (ok x) s = all_done s
    finished (err e) s = s
    finished crash s = s

    unfoldable pub started : Outcome (Unit {0}) → List Event → Pulling → Pulling
    unfolding run_events
    started (ok x) events p = run_events events p
    started (err e) events p = p
    started crash events p = p

    unfoldable pub pull_image : Pull → ImageFetch → Outcome (Unit {0}) × ImageFetch
    unfolding pull_result finished started
    pull_image p s =
        let before = started p.connected p.during (record { progress = s; updater = idle }) in
        let behind =
          started p.connected (map updated p.late)
            (record before { progress = finished (pull_result p) before.progress }) in
        (pull_result p, behind.progress)
