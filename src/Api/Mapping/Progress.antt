-- ===== src/Api/Mapping/Progress.antt =====
-- pkg/api/mapping/progress.go: the progress of pulls, to the client.
use eliot.Prelude.{
  ℕ, Bytes, Bool, false, List, [], ◌∷◌, ◌++◌, Dict, insert, values, map, ◌≡◌, refl, ap, ◌∙◌,
  bytes_beq, All, nat_eq, All-append, append_assoc, append-nil,
}
use eliot.Progress.{sums, Status, ImageFetch, create_image_fetch, get_layers, get_progress}

-- pods.ImageLayerStatus
pub record ApiLayerStatus : Type 0 where
  pub ref : Bytes
  pub digest : Bytes
  pub offset : ℕ
  pub total : ℕ

-- pods.ImageFetch
pub record ApiImageFetch : Type 0 where
  pub container_id : Bytes
  pub image : Bytes
  pub resolved : Bool
  pub failed : Bool
  pub layers : List ApiLayerStatus

layer_to_api : Status → ApiLayerStatus
layer_to_api layer = record {
  ref = layer.ref;
  digest = layer.digest;
  offset = layer.offset;
  total = layer.total;
}

-- A new Status; its status is the empty text.
layer_of_api : ApiLayerStatus → Status
layer_of_api layer = record {
  ref = layer.ref;
  digest = layer.digest;
  status = [];
  offset = layer.offset;
  total = layer.total;
}

module _ (order : List Status → List Status) where
  fetch_to_api : ImageFetch → ApiImageFetch
  unfolding layer_to_api
  fetch_to_api p = record {
    container_id = p.container_id;
    image = p.image;
    resolved = p.resolved;
    failed = p.failed;
    layers = map layer_to_api (get_layers order p);
  }

  -- MapImageFetchProgressToAPIModel
  unfoldable pub map_image_fetch_progress_to_api_model : List ImageFetch → List ApiImageFetch
  unfolding fetch_to_api
  map_image_fetch_progress_to_api_model progresses = map fetch_to_api progresses

-- The loop over the layers of one fetch.
statuses_of : List ApiLayerStatus → Dict Status → Dict Status
unfolding layer_of_api
statuses_of [] statuses = statuses
statuses_of (layer ∷ layers) statuses =
    statuses_of layers (insert layer.ref (layer_of_api layer) statuses)

fetch_of_api : ApiImageFetch → ImageFetch
unfolding statuses_of
fetch_of_api p = create_image_fetch p.container_id p.image p.resolved (statuses_of p.layers [])

-- MapAPIModelToImageFetchProgress
unfoldable pub map_api_model_to_image_fetch_progress : List ApiImageFetch → List ImageFetch
unfolding fetch_of_api
map_api_model_to_image_fetch_progress progresses = map fetch_of_api progresses

-- The layer without its status text, as a client sees it.
unfoldable pub without_status : Status → Status
without_status s = record s { status = [] }

-- No other layer of the list has the reference.
abbrev pub Fresh : Bytes → List Status → Type 0
Fresh r = All λ (s : Status). bytes_beq r s.ref ≡ false

-- The references of the layers differ.
abbrev pub HasOwnRefs : List Status → Type 0
HasOwnRefs [] = Unit
HasOwnRefs (s ∷ ss) = Fresh s.ref ss × HasOwnRefs ss

-- The map that holds the layers, each under its reference.
abbrev pub by_ref : List Status → Dict Status
by_ref [] = []
by_ref (s ∷ ss) = (s.ref, without_status s) ∷ by_ref ss

insert-by_ref :
    (s : Status) (ss : List Status)
    → All (λ (t : Status). bytes_beq t.ref s.ref ≡ false) ss
    → insert s.ref (without_status s) (by_ref ss) ≡ by_ref (ss ++ s ∷ [])
unfolding insert
insert-by_ref s [] h = refl
insert-by_ref s (t ∷ ss) (h, hs) =
    rw h (ap (λ r. (t.ref, without_status t) ∷ r) (insert-by_ref s ss hs))

All-map :
    {A : Type 0} {P Q : A → Type 0} (xs : List A) → ((x : A) → P x → Q x) → All P xs → All Q xs
All-map [] f h = tt
All-map (x ∷ xs) f (h, hs) = (f x h, All-map xs f hs)

-- The layers of one list have other references than those of the other.
abbrev Apart : List Status → List Status → Type 0
Apart done rest = All (λ (t : Status). Fresh t.ref rest) done

statuses_of-by_ref :
    (done rest : List Status)
    → Apart done rest
    → HasOwnRefs rest
    → statuses_of (map layer_to_api rest) (by_ref done) ≡ by_ref (done ++ rest)
unfolding statuses_of layer_to_api layer_of_api without_status
statuses_of-by_ref done [] a h = simp append-nil
statuses_of-by_ref done (s ∷ rest) a (f, h) =
    let first =
      All-map {P = λ t. Fresh t.ref (s ∷ rest)} {Q = λ t. bytes_beq t.ref s.ref ≡ false} done
        (λ t p. p.0) a in
    let later =
      All-map {P = λ t. Fresh t.ref (s ∷ rest)} {Q = λ t. Fresh t.ref rest} done (λ t p. p.1) a in
    ap (statuses_of (map layer_to_api rest)) (insert-by_ref s done first)
    ∙ statuses_of-by_ref (done ++ s ∷ []) rest (All-append _ done (s ∷ []) later (f, tt)) h
    ∙ ap by_ref (append_assoc done (s ∷ []) rest)

-- What the client makes of a fetch: it has not failed, and its layers have no status.
abbrev pub at_client : (List Status → List Status) → ImageFetch → ImageFetch
at_client order p = record p { failed = false; layers = by_ref (get_layers order p) }

sums-by_ref :
    (ss : List Status) (current total : ℕ)
    → sums current total (values (by_ref ss)) ≡ sums current total ss
unfolding sums without_status
sums-by_ref [] current total = refl
sums-by_ref (s ∷ ss) current total = sums-by_ref ss _ _

-- The client gets every fetch, with the layers under their references and the same progress, but
-- without the status of a layer, and with no mark that it failed.
pub map_api_model_to_image_fetch_progress-map_image_fetch_progress_to_api_model :
    (order : List Status → List Status) (ps : List ImageFetch)
    → All (λ p. HasOwnRefs (get_layers order p)) ps
    → (map_api_model_to_image_fetch_progress (map_image_fetch_progress_to_api_model order ps)
        ≡ map (at_client order) ps)
      × All (λ p. get_progress (λ l. l) (at_client order p) ≡ get_progress order p) ps
unfolding map_api_model_to_image_fetch_progress map_image_fetch_progress_to_api_model
    create_image_fetch get_progress get_layers
map_api_model_to_image_fetch_progress-map_image_fetch_progress_to_api_model order [] h = (refl, tt)
map_api_model_to_image_fetch_progress-map_image_fetch_progress_to_api_model order (p ∷ ps) (h, hs) =
    let (rest, progress) =
      map_api_model_to_image_fetch_progress-map_image_fetch_progress_to_api_model order ps hs in
    (
      rw (rest, statuses_of-by_ref [] (order (values p.layers)) tt h) refl,
      (sums-by_ref (order (values p.layers)) 0 0, progress),
    )
