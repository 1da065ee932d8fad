-- ===== src/Data/Files.antt =====
-- FilePayloadStorage of src/converter/data_converter.cpp: bodies in files whose names are the keys of
-- InMemoryPayloadStorage. The disk is the files of its directory by name; what the operating system
-- refuses is an argument. Opening a file to write empties it, as std::ios::trunc asks.
use temporal_cpp.Prelude.{
  ℕ, ◌≡◌, refl, ap, String, Bool, true, Option, none, some, List, insert, bind, if◌then◌else◌,
  string_key, insert_self, take,
}
use temporal_cpp.History.{Payload}
use temporal_cpp.Data.{erase_key}
use temporal_cpp.Data.Codecs.{erase_key-insert, payload_of}
use temporal_cpp.Data.Storage.{remote_ref_key, storage_key, Blobs, store, resolve}

-- What goes wrong in Store: the directory, the opening, or the write behind so many bytes.
pub data StoreFault : Type 0 where
  no_fault : StoreFault
  no_directory : StoreFault
  no_open : StoreFault
  write_stops : ℕ → StoreFault

module _ (hash : List ℕ → ℕ) (bytes_of : String → List ℕ) where
  -- The reference, none when Store throws, and the disk.
  unfoldable pub store_file : StoreFault → Payload → Blobs → Option Payload × Blobs
  unfolding storage_key
  store_file no_directory payload disk = (none, disk)
  store_file no_open payload disk = (none, disk)
  store_file (write_stops n) payload disk =
      (none, insert (storage_key hash payload.content) (take n payload.content) disk)
  store_file no_fault payload disk =
      let key = storage_key hash payload.content in
      let ref : Payload = record {
        metadata = insert remote_ref_key key payload.metadata;
        content = bytes_of key;
      } in
      (some ref, insert key payload.content disk)

-- Resolve, when the file can be opened and read (`readable`) or not; none when it throws.
unfoldable pub resolve_file : Bool → Payload → Blobs → Option Payload
resolve_file readable payload disk = elim (payload.metadata remote_ref_key) [
  | none ↦ some payload
  | some key ↦ bind (disk key) λ body.
      if readable
      then some (record { metadata = erase_key remote_ref_key payload.metadata; content = body })
      else none
]

module _ (hash : List ℕ → ℕ) (bytes_of : String → List ℕ) (payload : Payload) (disk : Blobs) where
  -- As long as the operating system refuses nothing, the store on disk does what the store in memory
  -- does: one can resolve what the other stored.
  pub store_file-interchangeable :
      (other : Payload)
      → (store_file hash bytes_of no_fault payload disk
          ≡ (some (store hash bytes_of payload disk).0, (store hash bytes_of payload disk).1))
        × (resolve_file true other disk ≡ resolve other disk)
  unfolding store_file store resolve_file resolve
  store_file-interchangeable other = (refl, refl)

  -- A body that is stored again shares the file of the first time, and the file is emptied before it
  -- is written. If that write stops short, Store throws, and the reference that the first Store
  -- returned is resolved, without an error, to a payload that has lost the rest of its body.
  pub failed_store-corrupts :
      (n : ℕ)
      → payload.metadata remote_ref_key ≡ none
      → (let stored = store_file hash bytes_of no_fault payload disk in
          let again = store_file hash bytes_of (write_stops n) payload stored.1 in
          (again.0 ≡ none)
          × (bind stored.0 (λ ref. resolve_file true ref again.1)
              ≡ some (record { metadata = payload.metadata; content = take n payload.content })))
  unfolding store_file resolve_file
  failed_store-corrupts n fresh =
      let key = storage_key hash payload.content in
      let kept = insert_self key (take n payload.content) (insert key payload.content disk) in
      let clean = erase_key-insert remote_ref_key key payload.metadata fresh in
      (refl, rw kept (ap (λ m. some (payload_of m (take n payload.content))) clean))
