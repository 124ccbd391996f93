-- ===== src/Btier/Engine/Atomic.antt =====
-- put and del of btier/btier.cc: what they leave in the key map, whatever the devices, the
-- allocators and the journal answer.
use clab.Prelude.{
  Bool, true, false, ℕ, ◌+◌, ◌%◌, ◌^◌, ◌≡◌, refl, sym, ap, subst, ◌∙◌, List, [], ◌∷◌, Option, none,
  some, length, if◌then◌else◌, bytes_beq,
}
use clab.Blk.Allocator.{Allocator}
use clab.Btier.Types.{KeyLocation, IoOp, header_size}
use clab.Btier.Device.{Status, ok, error, BlockDevice}
use clab.Btier.KeyMap.{Key, KeyMap, lookup, put, remove_key}
use clab.Btier.KeyMap.Laws.{
  IsIndexed, lookup-put, lookup-remove_key, put-IsIndexed, remove_key-IsIndexed,
}
use clab.Btier.ExtentMap.{ExtentMap}
use clab.Btier.ExtentMap.Slots.{record_io}
use clab.Btier.Journal.State.{is_near_full, needs_checkpoint}
use clab.Btier.Engine.{
  checkpoint_now, Impl, Engine, Slot, Outcome, refused, given, write_tier, transact, dead_record,
  release_old,
}
use clab.Btier.Engine.Release.{Releases, release_old-Releases}
use clab.Btier.Engine.Operations.{
  put_records, location_in, keep_or_checkpoint, release_if, commit_put, after_transaction,
  after_write, after_reserve, reserve, put_in, del_found, after_del, del_record, running, del,
}
use clab.Btier.Engine.Untouched.{
  key_map-write_tier, key_map-transact, key_map-undo, key_map-keep_or_checkpoint,
  key_map-release_if, key_map-reserve, journal-release_if,
}

module _ {A D : Type 0} (alloc : Allocator A) (device : BlockDevice D) where
  -- How the value was stored before the maps changed: the slot that the reservation `x` gave, the
  -- value written there, and then a transaction of the records of the put, which left `c`.
  abbrev pub Stored :
      Impl A D × Outcome Slot
      → Key
      → Option KeyLocation
      → List ℕ
      → ℕ
      → KeyLocation
      → Impl A D
      → Type 0
  Stored x key old value now kloc c =
      (w : Impl A D) × (s : Slot) × (d : Impl A D) × (x ≡ (w, given s))
      × (kloc ≡ location_in s (length value))
      × (write_tier alloc device w s.location.tier (s.location.offset + header_size + s.offset)
            value
          ≡ (d, ok))
      × (transact alloc device
            (record d { extent_map = record_io d.extent_map s.extent_id IoOp.write now })
            (put_records key old kloc)
          ≡ (c, ok))

  -- The space of the old value, if there was one, is released.
  abbrev pub ReleasesIf : ExtentMap A → Option KeyLocation → ExtentMap A → Type 0
  ReleasesIf m none m' = m' ≡ m
  ReleasesIf m (some old) m' = Releases m old m'

  -- How put ends after the reservation `x`, from the key map `m`: the key has a location of the
  -- length of the value, which is stored there, and the other keys theirs, or nothing has changed
  -- in the key map.
  abbrev pub PutEnds :
      Impl A D × Outcome Slot → KeyMap → Key → List ℕ → ℕ → Impl A D × Status → Type 0
  PutEnds x m key value now (r, error e) = r.key_map ≡ m
  PutEnds x m key value now (r, ok) =
      (kloc : KeyLocation) × (c : Impl A D) × (kloc.length ≡ length value % 2 ^ 32)
      × ((j : Key) → lookup r.key_map j ≡ (if bytes_beq key j then some kloc else lookup m j))
      × (IsIndexed m → IsIndexed r.key_map)
      × Stored x key (lookup m key) value now kloc c
      × (c.key_map ≡ m)
      × (r.journal ≡ (keep_or_checkpoint alloc device (needs_checkpoint c.journal) c).journal)
      × ReleasesIf c.extent_map (lookup m key) r.extent_map

  release_if-ReleasesIf :
      (i : Impl A D) (m : ExtentMap A) (old : Option KeyLocation)
      → i.extent_map ≡ m
      → ReleasesIf m old (release_if alloc device i old).extent_map
  unfolding release_if
  release_if-ReleasesIf i m none same = same
  release_if-ReleasesIf i m (some old) same =
      subst (λ e. Releases e old (release_old i.extent_map old)) same
        (release_old-Releases i.extent_map old)

  extent_map-keep_or_checkpoint :
      (b : Bool) (i : Impl A D) → (keep_or_checkpoint alloc device b i).extent_map ≡ i.extent_map
  unfolding checkpoint_now
  extent_map-keep_or_checkpoint true i = refl
  extent_map-keep_or_checkpoint false i = refl

  after_transaction-PutEnds :
      (key : Key) (s : Slot) (value : List ℕ) (now : ℕ) (m : KeyMap) (x : Impl A D × Outcome Slot)
      (t : Impl A D × Status)
      → t.0.key_map ≡ m
      → ((c : Impl A D)
          → t ≡ (c, ok)
          → Stored x key (lookup m key) value now (location_in s (length value)) c)
      → PutEnds x m key value now
          (after_transaction alloc device key (lookup m key) s (length value) t)
  unfolding after_transaction commit_put
  after_transaction-PutEnds key s value now m x (i, error e) same stored =
      key_map-undo alloc device i s (length value) ∙ same
  after_transaction-PutEnds key s value now m x (i, ok) same stored =
      let c = keep_or_checkpoint alloc device (needs_checkpoint i.journal) i in
      let kloc = location_in s (length value) in
      let lba = s.location.offset + header_size + s.offset in
      let done : Impl A D = record c { key_map = put c.key_map key kloc lba } in
      let old = lookup m key in
      let kept = key_map-keep_or_checkpoint alloc device (needs_checkpoint i.journal) i ∙ same in
      let map : (release_if alloc device done old).key_map ≡ put m key kloc lba =
        key_map-release_if alloc device done old ∙ ap (λ k. put k key kloc lba) kept in
      (
        kloc,
        i,
        refl,
        λ j. ap (λ k. lookup k j) map ∙ lookup-put m key j kloc lba,
        λ v. subst IsIndexed (sym map) (put-IsIndexed m key kloc lba v),
        stored i refl,
        same,
        journal-release_if alloc device done old,
        release_if-ReleasesIf done i.extent_map old
            (extent_map-keep_or_checkpoint (needs_checkpoint i.journal) i),
      )

  after_write-PutEnds :
      (key : Key) (s : Slot) (value : List ℕ) (now : ℕ) (m : KeyMap) (w : Impl A D)
      (t : Impl A D × Status)
      → write_tier alloc device w s.location.tier (s.location.offset + header_size + s.offset) value
        ≡ t
      → t.0.key_map ≡ m
      → PutEnds
          (w, given s)
          m
          key
          value
          now
          (after_write alloc device key (lookup m key) s (length value) now t)
  unfolding after_write
  after_write-PutEnds key s value now m w (d, error e) wrote same =
      key_map-undo alloc device d s (length value) ∙ same
  after_write-PutEnds key s value now m w (d, ok) wrote same =
      let used : Impl A D = record d {
        extent_map = record_io d.extent_map s.extent_id IoOp.write now;
      } in
      let kloc = location_in s (length value) in
      let rs = put_records key (lookup m key) kloc in
      after_transaction-PutEnds key s value now m (w, given s) (transact alloc device used rs)
        (key_map-transact alloc device used rs ∙ same)
        (λ c done. (w, s, d, refl, refl, wrote, done))

  after_reserve-PutEnds :
      (key : Key) (value : List ℕ) (now : ℕ) (m : KeyMap) (x : Impl A D × Outcome Slot)
      → x.0.key_map ≡ m
      → PutEnds x m key value now (after_reserve alloc device key (lookup m key) value now x)
  unfolding after_reserve
  after_reserve-PutEnds key value now m (i, refused e) same = same
  after_reserve-PutEnds key value now m (i, given s) same =
      let off = s.location.offset + header_size + s.offset in
      after_write-PutEnds key s value now m i (write_tier alloc device i s.location.tier off value)
        refl (key_map-write_tier alloc device i s.location.tier off value ∙ same)

  -- The reservation that a put makes, after a checkpoint if the journal is nearly full.
  abbrev pub reserved : Impl A D → ℕ → Impl A D × Outcome Slot
  reserved i size =
      reserve alloc device (keep_or_checkpoint alloc device (is_near_full i.journal) i) size

  pub put_in-PutEnds :
      (i : Impl A D) (key : Key) (value : List ℕ) (now : ℕ)
      → PutEnds
          (reserved i (length value))
          i.key_map
          key
          value
          now
          (put_in alloc device i key value now)
  unfolding put_in
  put_in-PutEnds i key value now =
      let ready = keep_or_checkpoint alloc device (is_near_full i.journal) i in
      let same = key_map-keep_or_checkpoint alloc device (is_near_full i.journal) i in
      let x = reserved i (length value) in
      subst
        (λ k.
          PutEnds x i.key_map key value now
            (after_reserve alloc device key (lookup k key) value now x))
        (sym same)
        (after_reserve-PutEnds key value now i.key_map x
          (key_map-reserve alloc device ready (length value) ∙ same))

  -- How del ends: the key is gone and its space released, or nothing has changed in either map.
  abbrev pub DelEnds : Impl A D → Key → Impl A D × Status → Type 0
  DelEnds i key (r, error e) = (r.key_map ≡ i.key_map) × (r.extent_map ≡ i.extent_map)
  DelEnds i key (r, ok) =
      (kloc : KeyLocation) × (lookup i.key_map key ≡ some kloc)
      × ((j : Key) → lookup r.key_map j ≡ (if bytes_beq key j then none else lookup i.key_map j))
      × Releases i.extent_map kloc r.extent_map
      × (IsIndexed i.key_map → IsIndexed r.key_map)

  after_del-DelEnds :
      (i : Impl A D) (key : Key) (kloc : KeyLocation) (x : Impl A D × Status)
      → lookup i.key_map key ≡ some kloc
      → x.0.key_map ≡ i.key_map
      → x.0.extent_map ≡ i.extent_map
      → DelEnds i key (after_del alloc device key kloc x)
  unfolding after_del
  after_del-DelEnds i key kloc (r, error e) found same_keys same_extents = (same_keys, same_extents)
  after_del-DelEnds i key kloc (r, ok) found same_keys same_extents = (
    kloc,
    found,
    λ j. ap (λ k. lookup (remove_key k key) j) same_keys ∙ lookup-remove_key i.key_map key j,
    subst (λ m. Releases m kloc (release_old r.extent_map kloc)) same_extents
        (release_old-Releases r.extent_map kloc),
    λ v.
        subst (λ k. IsIndexed (remove_key k key)) (sym same_keys)
          (remove_key-IsIndexed i.key_map key v),
  )

  del_found-DelEnds :
      (i : Impl A D) (key : Key) (o : Option KeyLocation)
      → lookup i.key_map key ≡ o
      → DelEnds i key (del_found alloc device i key o)
  unfolding del_found transact
  del_found-DelEnds i key none found = (refl, refl)
  del_found-DelEnds i key (some kloc) found =
      after_del-DelEnds i key kloc
        (transact alloc device i (del_record key ∷ dead_record kloc ∷ [])) found refl refl

  -- The two operations on an engine that runs.
  abbrev pub Puts : Impl A D → Key → List ℕ → ℕ → Engine A D × Status → Type 0
  Puts i key value now (none, st) = ⊥
  Puts i key value now (some r, st) =
      PutEnds (reserved i (length value)) i.key_map key value now (r, st)

  abbrev pub Dels : Impl A D → Key → Engine A D × Status → Type 0
  Dels i key (none, st) = ⊥
  Dels i key (some r, st) = DelEnds i key (r, st)

  running-Dels :
      (i : Impl A D) (key : Key) (x : Impl A D × Status)
      → DelEnds i key x
      → Dels i key (running alloc device x)
  running-Dels i key (r, st) ends = ends

  -- Whatever the device and the journal answer, del on an engine that runs ends in one of two
  -- ways. With an error, the key map and the extent map are as they were. With success, the key
  -- had a location and has none now, every other key has the location that it had, and the reverse
  -- index agrees with the key map if it did before. The extent of the location, if it is there,
  -- has fewer live bytes by the length of the value, at its place and with its used bytes, or, if
  -- it had no more live bytes than that, it is gone and its place is queued to be given back; the
  -- queue has no other new entry, and the other extents are as they were.
  pub del-Dels : (i : Impl A D) (key : Key) → Dels i key (del alloc device (some i) key)
  unfolding del
  del-Dels i key =
      running-Dels i key (del_found alloc device i key (lookup i.key_map key))
        (del_found-DelEnds i key (lookup i.key_map key) refl)
