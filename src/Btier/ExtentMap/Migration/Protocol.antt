-- ===== src/Btier/ExtentMap/Migration/Protocol.antt =====
-- The three-step protocol of a migration while put, get, del and sync run between its steps.
use clab.Prelude.{
  ℕ, not, ◌&&◌, Bool, subst, ◌+◌, ◌%◌, ◌^◌, ◌<◌, ◌≡◌, refl, sym, ap, ◌∙◌, inl, inr, true, false,
  List, [], ◌∷◌, ◌++◌, some, arith, ◌==◌, ==_iff, nat_eq, Bool-cases,
}
use clab.Prelude.Assoc.{find-insert, beq_self}
use clab.Btier.Types.{DiskLocation, active, migrating, state, generation}
use clab.Btier.ExtentMap.{ExtentEntry, ExtentMap, lookup, store}
use clab.Blk.Allocator.{Allocator}
use clab.Btier.ExtentMap.Slots.Counters.{fields-lt}
use clab.Btier.ExtentMap.Migration.Calls.{IoCall, io_run, deaths_on, is_freed}
use clab.Btier.ExtentMap.Migration.{
  MigrationHandle, restate, begin_migration, commit_migration, abort_migration, check_migration,
}
use clab.Btier.ExtentMap.Migration.Held.{
  HeldAs, HeldIn, handle_of, claimed_entry, same_generation, restate_wraps, held_run, begin_active,
  begin-Claimed,
}

module _ {A : Type 0} (alloc : Allocator A) where
  -- The extent between begin and commit.
  during :
      (m : ExtentMap A) (id : ℕ) (e : ExtentEntry) (cs : List IoCall)
      → lookup m id ≡ some e
      → state e.raw ≡ active
      → e.raw < 2 ^ 64
      → id < m.next_extent_id
      → HeldIn
          (io_run alloc (begin_migration m id).0 cs)
          (handle_of id e)
          (deaths_on id cs)
          (is_freed id cs)
  during m id e cs found on word given = rw (begin_active m id e found on) (
      held_run alloc (store m id (claimed_entry e)) cs (handle_of id e) 0 false
        (given, begin-Claimed m id e word))

  -- What the checks say of an extent that is claimed or gone.
  verdict_of :
      (m : ExtentMap A) (h : MigrationHandle) (k : ℕ) (gone : Bool) (new_loc : DiskLocation)
      → h.gen_before < 2 ^ 32
      → HeldAs m h k gone
      → (check_migration m h ≡ ((k % 2 ^ 32 == 0) && not gone))
        × ((commit_migration m h new_loc).1 ≡ ((k % 2 ^ 32 == 0) && not gone))
  unfolding check_migration commit_migration
  verdict_of m h k true new_loc small gone =
      (rw (check_migration, gone) (ground arith), rw (commit_migration, gone) (ground arith))
  verdict_of m h k false new_loc small (e, there, c) =
      let same = same_generation h k e c small in
      elim (Bool-cases (generation e.raw == h.gen_before)) [
        | inl equal ↦
            let fact : (k % 2 ^ 32 == 0) ≡ true = sym same ∙ equal in
            (
              rw (check_migration, there, equal, fact) refl,
              rw (commit_migration, there, equal, fact) refl,
            )
        | inr other ↦
            let fact : (k % 2 ^ 32 == 0) ≡ false = sym same ∙ other in
            (
              rw (check_migration, there, other, fact) refl,
              rw (commit_migration, there, other, fact) refl,
            )
      ]

  -- For an extent that is there, ACTIVE, with a 64-bit metrics word and an id below the next one:
  -- begin_migration hands out a handle with its place and generation, and after any calls of
  -- record_io, set_randomness, append_slot, mark_dead_slot, io_ref_inc, io_ref_dec, free,
  -- allocate_extent and flush_dirty_headers, on any extents, check_migration and commit_migration
  -- succeed exactly if none of these calls freed that extent and no slot of it was marked dead,
  -- counted modulo 2^32.
  pub migration_verdict :
      (m : ExtentMap A) (id : ℕ) (e : ExtentEntry) (cs : List IoCall) (new_loc : DiskLocation)
      → lookup m id ≡ some e
      → state e.raw ≡ active
      → e.raw < 2 ^ 64
      → id < m.next_extent_id
      → let h = handle_of id e in
        let later = io_run alloc (begin_migration m id).0 cs in
        ((begin_migration m id).1 ≡ some h)
        × (check_migration later h ≡ ((deaths_on id cs % 2 ^ 32 == 0) && not (is_freed id cs)))
        × ((commit_migration later h new_loc).1
            ≡ ((deaths_on id cs % 2 ^ 32 == 0) && not (is_freed id cs)))
  migration_verdict m id e cs new_loc found on word given =
      let h = handle_of id e in
      let held = during m id e cs found on word given in
      let f = fields-lt e.raw word in
      let verdict =
        verdict_of (io_run alloc (begin_migration m id).0 cs) h (deaths_on id cs) (is_freed id cs)
          new_loc (omega arith) held.1 in
      (ap (λ p. p.1) (begin_active m id e found on), verdict.0, verdict.1)

  -- For an extent that is there, ACTIVE, with a 64-bit metrics word and an id below the next one,
  -- and after begin_migration any calls of record_io, set_randomness, append_slot, mark_dead_slot,
  -- io_ref_inc, io_ref_dec, free, allocate_extent and flush_dirty_headers, on any extents, of
  -- which none frees that extent and none marks a slot of it dead: commit_migration puts it at its
  -- new place, ACTIVE and one generation on (modulo 2^32), with the sizes it has by then, and
  -- queues the old place to be freed.
  pub commit_moves :
      (m : ExtentMap A) (id : ℕ) (e : ExtentEntry) (cs : List IoCall) (new_loc : DiskLocation)
      → lookup m id ≡ some e
      → state e.raw ≡ active
      → e.raw < 2 ^ 64
      → id < m.next_extent_id
      → deaths_on id cs ≡ 0
      → is_freed id cs ≡ false
      → let later = io_run alloc (begin_migration m id).0 cs in
        let after = (commit_migration later (handle_of id e) new_loc).0 in
        (old new : ExtentEntry) × (lookup later id ≡ some old)
        × (lookup after id ≡ some new)
        × (new.location ≡ new_loc)
        × (state new.raw ≡ active)
        × (generation new.raw ≡ (generation e.raw + 1) % 2 ^ 32)
        × (new.used_bytes ≡ old.used_bytes)
        × (new.live_bytes ≡ old.live_bytes)
        × (after.deferred_free
            ≡ later.deferred_free
              ++ (record { loc = e.location; added_at_seqno = later.seqno } ∷ []))
  unfolding commit_migration
  commit_moves m id e cs new_loc found on word given quiet kept =
      let h = handle_of id e in
      let later = io_run alloc (begin_migration m id).0 cs in
      let (e', there, c) =
        subst (HeldAs later (handle_of id e) (deaths_on id cs)) kept
          (during m id e cs found on word given).1 in
      let f = fields-lt e.raw word in
      let same : (generation e'.raw == h.gen_before) ≡ true = ground (arith, c.gen) in
      let moved = record e' {
        location = new_loc;
        raw = restate e'.raw active (h.gen_before + 1);
      } in
      let p = restate_wraps e'.raw active (h.gen_before + 1) c.word (omega arith) in
      (
        e',
        moved,
        there,
        rw (commit_migration, there, same)
            (find-insert id id moved later.entries ∙ rw (beq_self id)),
        refl,
        p.0,
        p.1,
        refl,
        refl,
        rw (commit_migration, there, same, c.place),
      )

  -- For an extent that is there, ACTIVE, with a 64-bit metrics word and an id below the next one:
  -- after begin_migration and calls of which none frees it, abort_migration makes it ACTIVE again,
  -- at the place where it was.
  pub abort_restores :
      (m : ExtentMap A) (id : ℕ) (e : ExtentEntry) (cs : List IoCall)
      → lookup m id ≡ some e
      → state e.raw ≡ active
      → e.raw < 2 ^ 64
      → id < m.next_extent_id
      → is_freed id cs ≡ false
      → (new : ExtentEntry) × (lookup
            (abort_migration (io_run alloc (begin_migration m id).0 cs) (handle_of id e))
            id
          ≡ some new)
        × (new.location ≡ e.location)
        × (state new.raw ≡ active)
  unfolding abort_migration
  abort_restores m id e cs found on word given kept =
      let later = io_run alloc (begin_migration m id).0 cs in
      let (e', there, c) =
        subst (HeldAs later (handle_of id e) (deaths_on id cs)) kept
          (during m id e cs found on word given).1 in
      let is_busy : (state e'.raw == migrating) ≡ true = (==_iff _ _).1 c.busy in
      let back = record e' { raw = restate e'.raw active (generation e'.raw) } in
      let p = restate_wraps e'.raw active (generation e'.raw) c.word (omega arith) in
      (
        back,
        rw (abort_migration, there, is_busy)
            (find-insert id id back later.entries ∙ rw (beq_self id)),
        c.place,
        p.0,
      )
