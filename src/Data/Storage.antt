-- ===== src/Data/Storage.antt =====
-- InMemoryPayloadStorage: bodies kept by a key made of a hash of the body and its size. The hash
-- is the C++ library's, whose values the standard leaves open: a parameter.
use temporal_cpp.Prelude.{
  ℕ, String, Option, none, some, List, [], ◌∷◌, Map, insert, bind, string_key, ◌==◌, length,
  to_string, ◌≡◌, inl, inr, sym, ap, Bool-cases, insert_self,
}
use Prim.Native.String.{◌++◌}
use temporal_cpp.History.{Payload}
use temporal_cpp.Data.{erase_key}
use temporal_cpp.Data.Codecs.{erase_key-insert, payload_of}

-- kRemoteRefKey
abbrev pub remote_ref_key : String
remote_ref_key = "remote-codec-ref"

-- `blobs_`
abbrev pub Blobs : Type 0
Blobs = Map String (List ℕ)

module _ (hash : List ℕ → ℕ) where
  unfoldable pub storage_key : List ℕ → String
  storage_key body = (to_string (hash body) ++ "-") ++ to_string (length body)

  -- The payload with the body replaced by its reference; a text is its bytes, `bytes_of`.
  unfoldable pub store : (String → List ℕ) → Payload → Blobs → Payload × Blobs
  unfolding storage_key
  store bytes_of payload blobs =
      let key = storage_key payload.content in
      let out : Payload = record {
        metadata = insert remote_ref_key key payload.metadata;
        content = bytes_of key;
      } in
      (out, insert key payload.content blobs)

unfoldable pub resolve : Payload → Blobs → Option Payload
resolve payload blobs = elim (payload.metadata remote_ref_key) [
  | none ↦ some payload
  | some key ↦
      bind (blobs key) λ body.
        some (record { metadata = erase_key remote_ref_key payload.metadata; content = body })
]

-- The store after further payloads.
abbrev pub store_all : (List ℕ → ℕ) → (String → List ℕ) → List Payload → Blobs → Blobs
store_all hash bytes_of [] blobs = blobs
store_all hash bytes_of (p ∷ ps) blobs = store_all hash bytes_of ps (store hash bytes_of p blobs).1

-- No other body of the list has the key of this one.
abbrev pub NoCollision : (List ℕ → ℕ) → List ℕ → List Payload → Type 0
NoCollision hash body [] = Unit
NoCollision hash body (p ∷ ps) =
    (storage_key hash p.content ≡ storage_key hash body → p.content ≡ body)
    × NoCollision hash body ps

store_all-kept :
    (hash : List ℕ → ℕ) (bytes_of : String → List ℕ) (body : List ℕ) (ps : List Payload)
    (blobs : Blobs)
    → NoCollision hash body ps
    → blobs (storage_key hash body) ≡ some body
    → store_all hash bytes_of ps blobs (storage_key hash body) ≡ some body
unfolding store
store_all-kept hash bytes_of body [] blobs h kept = kept
store_all-kept hash bytes_of body (p ∷ ps) blobs (distinct, h) kept =
    store_all-kept hash bytes_of body ps (store hash bytes_of p blobs).1 h
      (elim (Bool-cases (storage_key hash body == storage_key hash p.content)) [
        | inl e ↦ rw e (ap some (distinct (sym (string_key.equal_sound _ _ e))))
        | inr n ↦ rw n kept
      ])

-- A payload that was stored is resolved to itself, whatever is stored after it, as long as no
-- other body collides with its key and it carries no reference of its own.
pub resolve-store :
    (hash : List ℕ → ℕ) (bytes_of : String → List ℕ) (payload : Payload) (later : List Payload)
    (blobs : Blobs)
    → NoCollision hash payload.content later
    → payload.metadata remote_ref_key ≡ none
    → (let stored = store hash bytes_of payload blobs in
        resolve stored.0 (store_all hash bytes_of later stored.1))
      ≡ some payload
unfolding resolve store
resolve-store hash bytes_of payload later blobs h fresh =
    let key = storage_key hash payload.content in
    let after = insert key payload.content blobs in
    let kept =
      store_all-kept hash bytes_of payload.content later after h
        (insert_self key payload.content blobs) in
    let e = erase_key-insert remote_ref_key key payload.metadata fresh in
    rw kept (ap (λ m. some (payload_of m payload.content)) e)
