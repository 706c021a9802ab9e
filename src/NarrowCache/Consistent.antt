-- ===== src/NarrowCache/Consistent.antt =====
-- The invariant of the loops and of the entry, and how it is kept when a loop changes.
use netobserv_operator.NarrowCache.Sound.{is_quiet, IsSound, is_established}
use netobserv_operator.Base.{
  ◌≡◌, refl, sym, ◌∙◌, ℕ, true, false, Option, none, some, List, any, All, arith,
}
use netobserv_operator.NarrowCache.{Entry, set_cache_object, remove_from_cache, clear_entry_by_key}
use netobserv_operator.NarrowCache.Loops.{Loop, System, at, set_at, drop_at, Next, ended}
use netobserv_operator.NarrowCache.At.{
  all, All-set_at, All-drop_at, any-set_at, any-set_at-true, any-drop_at, all-set_at_self,
  all-drop_at, all-set_at_same,
}

module _ {Obj Handler : Type 0} where
  abbrev pub EntryIsSound : Option Obj → List (Loop Obj) → Entry Obj Handler → Type 0
  EntryIsSound server loops none = Unit
  EntryIsSound server loops (some ca) =
      (any is_established loops ≡ true) × (all is_quiet loops ≡ true → ca.cached ≡ server)

  pub record IsConsistent (s : System Obj Handler) : Type 0 where
    pub loops : All (IsSound s.server) s.loops
    pub entry : EntryIsSound s.server s.loops s.entry

  abbrev pub Afterwards : Next Obj Handler → Type 0
  Afterwards none = Unit
  Afterwards (some (s, calls)) = IsConsistent s

  pub EntryIsSound-keep :
      (server : Option Obj) (ls ls' : List (Loop Obj)) (e : Entry Obj Handler)
      → (any is_established ls ≡ true → any is_established ls' ≡ true)
      → (all is_quiet ls' ≡ true → all is_quiet ls ≡ true)
      → EntryIsSound server ls e
      → EntryIsSound server ls' e
  EntryIsSound-keep server ls ls' none est quiet h = tt
  EntryIsSound-keep server ls ls' (some ca) est quiet (some_est, fresh) =
      (est some_est, λ h. fresh (quiet h))

  -- A loop is replaced by one that the cache does not tell apart.
  pub IsConsistent-replace :
      (i : ℕ) (l l' : Loop Obj) (s : System Obj Handler)
      → IsConsistent s
      → at i s.loops ≡ some l
      → IsSound s.server l'
      → is_established l' ≡ is_established l
      → is_quiet l' ≡ is_quiet l
      → IsConsistent (record s { loops = set_at i l' s.loops })
  IsConsistent-replace i l l' s c h sound est quiet = record {
    loops = All-set_at (IsSound s.server) i l' s.loops sound c.loops;
    entry =
        EntryIsSound-keep s.server s.loops (set_at i l' s.loops) s.entry
          (λ e. any-set_at is_established i l' l s.loops h est ∙ e)
          (λ q. sym (all-set_at_same is_quiet i l l' s.loops h quiet) ∙ q) c.entry;
  }

  pub ended-IsConsistent :
      (i : ℕ) (l : Loop Obj) (p : Option (Option Obj)) (s : System Obj Handler)
      → IsConsistent s
      → at i s.loops ≡ some l
      → (p ≡ none → l.previous ≡ none)
      → IsConsistent (ended i p s)
  unfolding ended clear_entry_by_key
  ended-IsConsistent i l (some p) s c h same = record {
    loops = All-drop_at (IsSound s.server) i s.loops c.loops;
    entry = tt;
  }
  ended-IsConsistent i l none s c h same = record {
    loops = All-drop_at (IsSound s.server) i s.loops c.loops;
    entry =
        EntryIsSound-keep s.server s.loops (drop_at i s.loops) s.entry
          (λ e. any-drop_at is_established i l s.loops h (rw (same refl) refl) ∙ e)
          (λ q. all-drop_at is_quiet i l s.loops h (rw (same refl) refl) q) c.entry;
  }

  -- A loop is replaced by one that is not quiet.
  pub IsConsistent-busy :
      (i : ℕ) (l l' : Loop Obj) (s : System Obj Handler)
      → IsConsistent s
      → at i s.loops ≡ some l
      → IsSound s.server l'
      → is_established l' ≡ true
      → is_quiet l' ≡ false
      → IsConsistent (record s { loops = set_at i l' s.loops })
  IsConsistent-busy i l l' s c h sound est busy = record {
    loops = All-set_at (IsSound s.server) i l' s.loops sound c.loops;
    entry =
        EntryIsSound-keep s.server s.loops (set_at i l' s.loops) s.entry
          (λ e. any-set_at-true is_established i l' l s.loops h est)
          (λ q. absurd (ground (arith, busy, all-set_at_self is_quiet i l' l s.loops h q))) c.entry;
  }

  pub EntryIsSound-set :
      (server v : Option Obj) (ls : List (Loop Obj)) (e : Entry Obj Handler)
      → any is_established ls ≡ true
      → (all is_quiet ls ≡ true → v ≡ server)
      → EntryIsSound server ls (set_cache_object v e)
  unfolding set_cache_object
  EntryIsSound-set server v ls none est fresh = (est, fresh)
  EntryIsSound-set server v ls (some ca) est fresh = (est, fresh)

  pub EntryIsSound-remove :
      (server : Option Obj) (ls : List (Loop Obj)) (e : Entry Obj Handler)
      → any is_established ls ≡ true
      → (all is_quiet ls ≡ true → none ≡ server)
      → EntryIsSound server ls (remove_from_cache e)
  unfolding remove_from_cache
  EntryIsSound-remove server ls none est fresh = tt
  EntryIsSound-remove server ls (some ca) est fresh = (est, fresh)
