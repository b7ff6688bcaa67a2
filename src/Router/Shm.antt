-- ===== src/Router/Shm.antt =====
-- scalerouter/shared_memory.cpp and the shared memory of scalerouter.cpp.
use cs252aproject.Base.{
  ℕ, suc, Option, none, some, List, [], ◌∷◌, ◌++◌, length, nat_eq, Bool, true, false, if◌then◌else◌,
}
use cs252aproject.Base.Int.{ℤ, negsuc, to_signed}
use cs252aproject.Base.Text.{codes, show_ℕ, show_ℤ}
use cs252aproject.Base.Map.{Map, find, insert}
use cs252aproject.Router.State.{Env, ShmPiece, shm_open, ftruncate, mmap, munmap, close, shm_unlink}
use cs252aproject.Router.Exec.{Exec, pure, gets, modify, perform, lock, unlock, shmmap, ◌>>=◌, ◌>>◌}

-- "client-" << process_id << "-memsize-" << mem_size << "-index-" << count
unfoldable pub shm_name_of : ℕ → ℤ → ℤ → List ℕ
unfolding show_ℕ show_ℤ
shm_name_of process_id mem_size count =
    codes "client-"
    ++ show_ℕ process_id
    ++ codes "-memsize-"
    ++ show_ℤ mem_size
    ++ codes "-index-"
    ++ show_ℤ count

-- The pieces of a process; `shm_map[process_id]` of an absent key is an empty vector.
abbrev pub pieces_of : Map ℕ (List ShmPiece) → ℕ → List ShmPiece
pieces_of m process_id = elim (find m process_id) [ none ↦ [] | some v ↦ v ]

abbrev pub is_mapped : ShmPiece → Bool
is_mapped sp = elim sp.ptr [ none ↦ false | some p ↦ true ]

module _ (env : Env) where
  -- ShmPiece::open: the piece with its descriptor and its mapping
  unfoldable pub open_piece : ShmPiece → Exec ShmPiece
  unfolding ◌>>=◌
  open_piece sp = do
    fd ← perform (shm_open sp.name) env.rc
    perform (ftruncate fd sp.size) env.rc
    p ← perform (mmap sp.size fd) env.mmap_ptr
    pure (record sp { shm_fd = fd; ptr = p })

  -- ShmPiece::remove: the results are only logged
  unfoldable pub remove_piece : ShmPiece → Exec (Unit {0})
  unfolding ◌>>=◌
  remove_piece sp = elim sp.ptr [
    | none ↦ pure tt
    | some p ↦ do
      perform (close sp.shm_fd) env.rc
      perform (munmap p sp.size) env.rc
      perform (shm_unlink sp.name) env.rc
      pure tt
  ]

  -- ScaleRouter::addShmPiece. `count` is the size of the vector as an `int`; a piece that cannot be mapped stays in the vector.
  unfoldable pub add_shm_piece : ℕ → ℤ → Exec (Option ShmPiece)
  unfolding lock unlock open_piece shm_name_of ◌>>=◌
  add_shm_piece process_id mem_size = do
    lock shmmap
    v ← gets (λ s. pieces_of s.shm_map process_id)
    self ← gets (λ s. s.next_shm)
    sp ← open_piece (record {
      self = self;
      name = shm_name_of process_id mem_size (to_signed 32 (length v));
      size = mem_size;
      shm_fd = negsuc 0;
      ptr = none;
    })
    modify (λ s. record s {
      shm_map = insert s.shm_map process_id (v ++ sp ∷ []);
      next_shm = suc s.next_shm;
    })
    unlock shmmap
    pure (if is_mapped sp then some sp else none)

  abbrev remove_all : List ShmPiece → Exec (Unit {0})
  unfolding remove_piece ◌>>=◌
  remove_all [] = pure tt
  remove_all (sp ∷ v) = remove_piece sp >>= λ _. remove_all v

  abbrev remove_vectors : List (ℕ × List ShmPiece) → Exec (Unit {0})
  unfolding remove_piece ◌>>=◌
  remove_vectors [] = pure tt
  remove_vectors ((process_id, v) ∷ rest) = remove_all v >>= λ _. remove_vectors rest

  -- ScaleRouter::freeShmPiece
  unfoldable pub free_shm_piece : Exec (Unit {0})
  unfolding remove_piece ◌>>=◌
  free_shm_piece = do vectors ← gets (λ s. s.shm_map.entries); remove_vectors vectors
