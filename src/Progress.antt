-- ===== src/Progress.antt =====
-- pkg/progress/imagefetch.go: the progress of an image pull. The methods that write hold the lock
-- while they run, so that such a method is one step; GetLayers, GetProgress and IsDone take no lock,
-- and stand for a call that no write interrupts. An int64 stands by its bits, below 2 ^ 64. A Go map
-- has no order of iteration: `order` gives the one that a range loop takes.
pub mod Laws
pub mod Cells
pub mod Bag
use eliot.Prelude.{
  ℕ, Bytes, codes, Bool, true, false, List, [], ◌∷◌, Option, some, none, if◌then◌else◌, Dict,
  lookup, insert, update, values, map_values, ◌+◌, ◌%◌, ◌^◌, ◌==◌, nat_eq, ◌&&◌, not, ◌≡◌, refl,
  bytes_beq,
}

pub record Status : Type 0 where
  pub ref : Bytes
  pub digest : Bytes
  pub status : Bytes
  pub offset : ℕ
  pub total : ℕ

pub record ImageFetch : Type 0 where
  pub container_id : Bytes
  pub image : Bytes
  pub resolved : Bool
  pub failed : Bool
  pub layers : Dict Status

unfoldable pub new_status : Bytes → Bytes → Status
new_status ref digest = record {
  ref = ref;
  digest = digest;
  status = codes "waiting";
  offset = 0;
  total = 0;
}

unfoldable pub waiting : Status → Status
waiting s = record s { status = codes "waiting" }

unfoldable pub downloading : ℕ → ℕ → Status → Status
downloading offset total s = record s {
  status = codes "downloading";
  offset = offset;
  total = total;
}

unfoldable pub done : Status → Status
done s = record s { offset = s.total; status = codes "done" }

unfoldable pub create_image_fetch : Bytes → Bytes → Bool → Dict Status → ImageFetch
create_image_fetch container_id image resolved layers = record {
  container_id = container_id;
  image = image;
  resolved = resolved;
  failed = false;
  layers = layers;
}

unfoldable pub new_image_fetch : Bytes → Bytes → ImageFetch
unfolding create_image_fetch
new_image_fetch container_id image = create_image_fetch container_id image false []

-- The sums of the loop over the layers, in int64.
unfoldable pub sums : ℕ → ℕ → List Status → ℕ × ℕ
sums current total [] = (current, total)
sums current total (layer ∷ layers) =
    sums ((current + layer.offset) % 2 ^ 64) ((total + layer.total) % 2 ^ 64) layers

module _ (order : List Status → List Status) where
  unfoldable pub get_progress : ImageFetch → ℕ × ℕ
  unfolding sums
  get_progress s = sums 0 0 (order (values s.layers))

  unfoldable pub is_done : ImageFetch → Bool
  unfolding get_progress
  is_done s = let (current, total) = get_progress s in current == total && not (current == 0)

  unfoldable pub get_layers : ImageFetch → List Status
  get_layers s = order (values s.layers)

unfoldable pub add : ImageFetch → Bytes → Bytes → ImageFetch
unfolding new_status
add s ref digest = elim (lookup ref s.layers) [
  | some _ ↦ record s { resolved = true }
  | none ↦ record s { resolved = true; layers = insert ref (new_status ref digest) s.layers }
]

unfoldable pub set_to_waiting : ImageFetch → Bytes → ImageFetch
unfolding waiting
set_to_waiting s ref = record s { layers = update ref waiting s.layers }

unfoldable pub set_to_downloading : ImageFetch → Bytes → ℕ → ℕ → ImageFetch
unfolding downloading
set_to_downloading s ref offset total = record s {
  layers = update ref (downloading offset total) s.layers;
}

unfoldable pub set_to_done : ImageFetch → Bytes → ImageFetch
unfolding done
set_to_done s ref = record s { layers = update ref done s.layers }

unfoldable pub set_to_failed : ImageFetch → ImageFetch
set_to_failed s = record s { failed = true }

unfoldable pub all_done : ImageFetch → ImageFetch
unfolding done
all_done s = record s { layers = map_values done s.layers }
