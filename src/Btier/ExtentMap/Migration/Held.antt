-- ===== src/Btier/ExtentMap/Migration/Held.antt =====
-- An extent that a migration has claimed, while put, get, del and sync run (btier/extent_map.cc).
use clab.Prelude.{
  ℕ, suc, Bool, none, subst, ◌+◌, ◌%◌, ◌^◌, ◌<◌, ◌≡◌, refl, sym, ap, ◌∙◌, inl, inr, true, false,
  List, [], ◌∷◌, some, arith, ◌==◌, ==_iff, if◌then◌else◌, nat_eq, Bool-cases,
}
use clab.Prelude.Assoc.{find, find-insert, beq_self}
use clab.Btier.Types.{active, migrating, access_count, write_count, randomness, state, generation}
use clab.Btier.Types.Pack.{fields-pack}
use clab.Btier.ExtentMap.{ExtentEntry, ExtentMap, lookup, store}
use clab.Btier.ExtentMap.Slots.{
  append_slot, mark_dead_slot, record_io, set_randomness, io_ref_inc, io_ref_dec,
}
use clab.Btier.ExtentMap.Space.{free_extent}
use clab.Btier.ExtentMap.Space.Fresh.{allocate_extent-below}
use clab.Blk.Allocator.{Allocator}
use clab.Btier.ExtentMap.Slots.Counters.{
  Fields, fields-lt, pack-Fields, count_io-Fields, put_randomness-Fields, bump_generation-Fields,
}
use clab.Btier.ExtentMap.Slots.Effects.{
  changed, lookup-record_io, lookup-set_randomness, lookup-io_ref_inc, lookup-io_ref_dec,
  lookup-mark_dead_slot, lookup-append_slot,
}
use clab.Btier.ExtentMap.Migration.Calls.{
  IoCall, uses, strides, appends, deaths, pins, unpins, frees, allocates, flushes, io_step, io_run,
  age, aged, lose, lost, lookup-free_extent, flush_dirty_headers-kept, io_step-next,
}
use clab.Btier.ExtentMap.Migration.{MigrationHandle, restate, begin_migration}

-- The extent is claimed at its place, and `k` generations have passed.
pub record Claimed (h : MigrationHandle) (k : ℕ) (e : ExtentEntry) : Type 0 where
  pub busy : state e.raw ≡ migrating
  pub gen : generation e.raw ≡ (h.gen_before + k) % 2 ^ 32
  pub place : e.location ≡ h.src_loc
  pub word : e.raw < 2 ^ 64

restate-Fields :
    (v st g : ℕ)
    → v < 2 ^ 64
    → st < 2 ^ 2
    → g < 2 ^ 32
    → Fields (restate v st g) (access_count v) (write_count v) (randomness v) st g
unfolding restate
restate-Fields v st g h hs hg =
    let f = fields-lt v h in
    pack-Fields _ _ _ _ _ (omega arith) (omega arith) (omega arith) (omega arith) (omega arith)

abbrev pub handle_of : ℕ → ExtentEntry → MigrationHandle
handle_of id e = record { extent_id = id; src_loc = e.location; gen_before = generation e.raw }

abbrev pub claimed_entry : ExtentEntry → ExtentEntry
claimed_entry e = record e { raw = restate e.raw migrating (generation e.raw) }

pub same_generation :
    (h : MigrationHandle) (k : ℕ) (e : ExtentEntry)
    → Claimed h k e
    → h.gen_before < 2 ^ 32
    → (generation e.raw == h.gen_before) ≡ (k % 2 ^ 32 == 0)
same_generation h k e c small = ground (arith, c.gen)

pub restate_wraps :
    (v st g : ℕ)
    → v < 2 ^ 64
    → st < 2 ^ 2
    → (state (restate v st g) ≡ st) × (generation (restate v st g) ≡ g % 2 ^ 32)
unfolding restate
restate_wraps v st g h hs =
    let p = fields-pack (access_count v) (write_count v) (randomness v) st g in
    (omega arith, omega arith)

module _ {A : Type 0} where
  abbrev pub ClaimedIn : ExtentMap A → MigrationHandle → ℕ → Type 0
  ClaimedIn m h k = (e : ExtentEntry) × (lookup m h.extent_id ≡ some e) × Claimed h k e

  -- The extent is claimed, or it is gone.
  abbrev pub HeldAs : ExtentMap A → MigrationHandle → ℕ → Bool → Type 0
  HeldAs m h k true = lookup m h.extent_id ≡ none
  HeldAs m h k false = ClaimedIn m h k

  -- Its id was given out before.
  abbrev pub HeldIn : ExtentMap A → MigrationHandle → ℕ → Bool → Type 0
  HeldIn m h k gone = (h.extent_id < m.next_extent_id) × HeldAs m h k gone

  -- A call that changes one entry by `f`.
  after_change :
      (m m' : ExtentMap A) (h : MigrationHandle) (id k k' : ℕ) (f : ExtentEntry → ExtentEntry)
      (e : ExtentEntry)
      → lookup m' h.extent_id ≡ changed id h.extent_id f (lookup m h.extent_id)
      → lookup m h.extent_id ≡ some e
      → ((id == h.extent_id) ≡ true → Claimed h k' (f e))
      → ((id == h.extent_id) ≡ false → Claimed h k' e)
      → ClaimedIn m' h k'
  after_change m m' h id k k' f e effect found same other = elim (Bool-cases (id == h.extent_id)) [
    | inl hit ↦ (f e, effect ∙ ap (changed id h.extent_id f) found ∙ rw hit, same hit)
    | inr miss ↦ (e, effect ∙ ap (changed id h.extent_id f) found ∙ rw miss, other miss)
  ]

module _ {A : Type 0} (alloc : Allocator A) where
  -- A call on the claimed extent.
  claimed_step :
      (m : ExtentMap A) (c : IoCall) (h : MigrationHandle) (k : ℕ)
      → h.extent_id < m.next_extent_id
      → ClaimedIn m h k
      → HeldAs (io_step alloc m c) h (age h.extent_id c k) (lose h.extent_id c false)
  claimed_step m (uses id op now) h k given (e, found, c) =
      let w = count_io-Fields e.raw op c.word in
      after_change m (record_io m id op now) h id k k _ e (lookup-record_io m id h.extent_id op now)
        found
        (λ hit. record {
          busy = w.state_field ∙ c.busy;
          gen = w.gen_field ∙ c.gen;
          place = c.place;
          word = w.word;
        })
        (λ miss. c)
  claimed_step m (strides id r) h k given (e, found, c) =
      let w = put_randomness-Fields e.raw r c.word in
      after_change m (set_randomness m id r) h id k k _ e (lookup-set_randomness m id h.extent_id r)
        found
        (λ hit. record {
          busy = w.state_field ∙ c.busy;
          gen = w.gen_field ∙ c.gen;
          place = c.place;
          word = w.word;
        })
        (λ miss. c)
  claimed_step m (appends id n) h k given (e, found, c) =
      let refused : (state e.raw == active) ≡ false = ground (arith, c.busy) in
      after_change m (append_slot m id n).0 h id k k _ e (lookup-append_slot m id h.extent_id n)
        found (λ hit. rw refused c) (λ miss. c)
  claimed_step m (deaths id n) h k given (e, found, c) =
      let w = bump_generation-Fields e.raw c.word in
      after_change m (mark_dead_slot m id n) h id k (if id == h.extent_id then suc k else k) _ e
        (lookup-mark_dead_slot m id h.extent_id n) found
        (λ hit. rw hit (record {
          busy = w.state_field ∙ c.busy;
          gen = omega (arith, w.gen_field, c.gen);
          place = c.place;
          word = w.word;
        }))
        (λ miss. rw miss c)
  claimed_step m (pins id) h k given (e, found, c) =
      after_change m (io_ref_inc m id) h id k k _ e (lookup-io_ref_inc m id h.extent_id) found
        (λ hit. ground (arith, c)) (λ miss. c)
  claimed_step m (unpins id) h k given (e, found, c) =
      after_change m (io_ref_dec m id) h id k k _ e (lookup-io_ref_dec m id h.extent_id) found
        (λ hit. ground (arith, c)) (λ miss. c)
  claimed_step m (frees id) h k given (e, found, c) = elim (Bool-cases (id == h.extent_id)) [
    | inl hit ↦
        subst (HeldAs (free_extent m id) h k)
          (let e : true ≡ lose h.extent_id (frees id) false = ground (arith, hit) in e)
          (lookup-free_extent m id h.extent_id ∙ rw hit refl)
    | inr miss ↦
        subst (HeldAs (free_extent m id) h k)
          (let e : false ≡ lose h.extent_id (frees id) false = ground (arith, miss) in e)
          (e, lookup-free_extent m id h.extent_id ∙ rw miss found, c)
  ]
  claimed_step m (allocates tier size) h k given (e, found, c) =
      (e, (allocate_extent-below alloc m tier size h.extent_id given).0 ∙ found, c)
  claimed_step m flushes h k given (e, found, c) =
      (e, ap (find h.extent_id) (flush_dirty_headers-kept m).0 ∙ found, c)

  -- A call after the extent is gone.
  gone_step :
      (m : ExtentMap A) (c : IoCall) (id : ℕ)
      → id < m.next_extent_id
      → lookup m id ≡ none
      → lookup (io_step alloc m c) id ≡ none
  gone_step m (uses j op now) id given gone =
      lookup-record_io m j id op now ∙ ap (changed j id _) gone
  gone_step m (strides j r) id given gone =
      lookup-set_randomness m j id r ∙ ap (changed j id _) gone
  gone_step m (appends j n) id given gone = lookup-append_slot m j id n ∙ ap (changed j id _) gone
  gone_step m (deaths j n) id given gone = lookup-mark_dead_slot m j id n ∙ ap (changed j id _) gone
  gone_step m (pins j) id given gone = lookup-io_ref_inc m j id ∙ ap (changed j id _) gone
  gone_step m (unpins j) id given gone = lookup-io_ref_dec m j id ∙ ap (changed j id _) gone
  gone_step m (frees j) id given gone = lookup-free_extent m j id ∙ ground (arith, gone)
  gone_step m (allocates tier size) id given gone =
      (allocate_extent-below alloc m tier size id given).0 ∙ gone
  gone_step m flushes id given gone = ap (find id) (flush_dirty_headers-kept m).0 ∙ gone

  lose_again : (id : ℕ) (c : IoCall) → lose id c true ≡ true
  lose_again id (frees j) = ground arith
  lose_again id (uses j op now) = refl
  lose_again id (strides j r) = refl
  lose_again id (appends j n) = refl
  lose_again id (deaths j n) = refl
  lose_again id (pins j) = refl
  lose_again id (unpins j) = refl
  lose_again id (allocates tier size) = refl
  lose_again id flushes = refl

  held_step :
      (m : ExtentMap A) (c : IoCall) (h : MigrationHandle) (k : ℕ) (gone : Bool)
      → HeldIn m h k gone
      → HeldIn (io_step alloc m c) h (age h.extent_id c k) (lose h.extent_id c gone)
  held_step m c h k true (given, held) = (
    io_step-next alloc m c h.extent_id given,
    subst (HeldAs (io_step alloc m c) h (age h.extent_id c k)) (sym (lose_again h.extent_id c))
        (gone_step m c h.extent_id given held),
  )
  held_step m c h k false (given, held) =
      (io_step-next alloc m c h.extent_id given, claimed_step m c h k given held)

  pub held_run :
      (m : ExtentMap A) (cs : List IoCall) (h : MigrationHandle) (k : ℕ) (gone : Bool)
      → HeldIn m h k gone
      → HeldIn (io_run alloc m cs) h (aged h.extent_id cs k) (lost h.extent_id cs gone)
  held_run m [] h k gone held = held
  held_run m (c ∷ cs) h k gone held =
      held_run (io_step alloc m c) cs h (age h.extent_id c k) (lose h.extent_id c gone)
        (held_step m c h k gone held)

module _ {A : Type 0} where
  pub begin_active :
      (m : ExtentMap A) (id : ℕ) (e : ExtentEntry)
      → lookup m id ≡ some e
      → state e.raw ≡ active
      → begin_migration m id ≡ (store m id (claimed_entry e), some (handle_of id e))
  unfolding begin_migration
  begin_active m id e found on =
      let is_on : (state e.raw == active) ≡ true = (==_iff _ _).1 on in
      rw (begin_migration, found, is_on)

  pub begin-Claimed :
      (m : ExtentMap A) (id : ℕ) (e : ExtentEntry)
      → e.raw < 2 ^ 64
      → ClaimedIn (store m id (claimed_entry e)) (handle_of id e) 0
  begin-Claimed m id e word =
      let f = fields-lt e.raw word in
      let w = restate-Fields e.raw migrating (generation e.raw) word (omega arith) (omega arith) in
      (
        claimed_entry e,
        find-insert id id (claimed_entry e) m.entries ∙ rw (beq_self id),
        record {
          busy = w.state_field;
          gen = omega (arith, w.gen_field);
          place = refl;
          word = w.word;
        },
      )
