-- ===== src/Storage/Cold.antt =====
-- `ColdStorage`: the methods of the S3 client are handed to an executor with the request as their one
-- positional argument.
use streaming_lab.Prelude.{
  ℕ, ◌+◌, String, Bool, true, false, Option, none, some, List, [], ◌∷◌, if◌then◌else◌, string_eq,
  not, str_eq,
}
use streaming_lab.Dict.{Dict, insert}
use streaming_lab.Results.{Result, ok, raise, uncaught, ◌>>=◌}
use streaming_lab.Gateway.Value.{Value, null, number, text, object, no_fields}
use streaming_lab.Storage.Services.{
  on_service, on_any, attempt_map, Json, put_object_request, get_object_request,
  delete_object_request, S3,
}

-- `if value`
abbrev pub is_truthy : Value → Bool
is_truthy null = false
is_truthy (number ℕ.zero) = false
is_truthy (number n) = true
is_truthy (text s) = not (str_eq s "")
is_truthy (object no_fields) = false
is_truthy (object f) = true

module _ (json : Json) (s3 : S3 json.Bytes) where
  unfoldable pub put_object :
      String → json.Bytes → List (String × Value) → s3.Store → Result Bool × s3.Store
  put_object key data_bytes metadata c =
      let (answer, c') = s3.positional (put_object_request key data_bytes metadata) c in
      (on_service false (attempt_map (λ body. true) answer), c')

  unfoldable pub get_object : String → s3.Store → Result (Option json.Bytes) × s3.Store
  get_object key c =
      let (answer, c') = s3.positional (get_object_request key) c in (on_service none answer, c')

  -- `orjson.loads` raises on a text that is no JSON
  abbrev pub loaded : Option Value → Result (Option Value)
  loaded none = raise uncaught
  loaded (some v) = ok (some v)

  abbrev pub read_object : Option json.Bytes → Result (Option Value)
  read_object none = ok none
  read_object (some b) = if json.is_truthy b then loaded (json.loads b) else ok none

  unfoldable pub cold_get : String → s3.Store → Result (Option Value) × s3.Store
  cold_get key c = let (found, c') = get_object key c in (found >>= read_object, c')

  abbrev pub put_dumped : String → Option json.Bytes → s3.Store → Result Bool × s3.Store
  put_dumped key none c = (raise uncaught, c)
  put_dumped key (some b) c = put_object key b [] c

  unfoldable pub cold_put : String → Value → s3.Store → Result Bool × s3.Store
  cold_put key value c = put_dumped key (json.dumps value) c

  unfoldable pub cold_delete : String → s3.Store → Bool × s3.Store
  cold_delete key c =
      let (answer, c') = s3.positional (delete_object_request key) c in
      (on_any false (attempt_map (λ body. true) answer), c')

  abbrev add_found : String → Option Value → Dict String Value → Dict String Value
  add_found key none d = d
  add_found key (some v) d = if is_truthy v then insert key v d else d

  -- what an exception leaves, and what follows otherwise
  abbrev pub continue {ℓ κ} :
      {A : Type ℓ} {B : Type κ}
      → (A → s3.Store → Result B × s3.Store)
      → Result A × s3.Store
      → Result B × s3.Store
  continue next (ok a, c) = next a c
  continue next (raise x, c) = (raise x, c)

  unfoldable pub batch_get_from :
      List String → Dict String Value → s3.Store → Result (Dict String Value) × s3.Store
  batch_get_from [] d c = (ok d, c)
  batch_get_from (key ∷ keys) d c =
      continue (λ found c'. batch_get_from keys (add_found key found d) c') (cold_get key c)

  abbrev pub cold_batch_get : List String → s3.Store → Result (Dict String Value) × s3.Store
  cold_batch_get keys c = batch_get_from keys [] c

  unfoldable pub batch_put_from : List (String × Value) → ℕ → s3.Store → Result ℕ × s3.Store
  batch_put_from [] n c = (ok n, c)
  batch_put_from ((key, value) ∷ items) n c =
      continue (λ stored c'. batch_put_from items (if stored then n + 1 else n) c')
        (cold_put key value c)

  abbrev pub cold_batch_put : List (String × Value) → s3.Store → Result ℕ × s3.Store
  cold_batch_put items c = batch_put_from items 0 c
