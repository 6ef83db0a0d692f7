-- ===== src/Threads/Windows/Exclusion.antt =====
-- src/common/win32_threads.h, Windows: one thread at a time between m_.lock() and m_.unlock().
use nexus_ftp_engine.Prelude.{
  ℕ, ◌<◌, ◌≡◌, ◌≢◌, refl, sym, ap, subst, ◌∙◌, Bool, true, false, Option, none, some, List, length,
  get_or-set_same, get_or-set_other, set, arith, get_or-replicate, inl, inr, same_or_other,
}
use nexus_ftp_engine.Threads.{Op, Event}
use nexus_ftp_engine.Threads.Windows
use nexus_ftp_engine.Threads.Windows.{
  Pc, outside, entered, locked, reading, leaving, finished, WinAtomic, pc_at, set_pc, new_win,
  WinStep, WinRun,
}

abbrev pub is_inside : Pc → Bool
is_inside (locked op) = true
is_inside (reading op v) = true
is_inside (leaving value) = true
is_inside pc = false

-- The thread inside owns the section, and what it has read is still the value.
pub record IsGuarded (s : WinAtomic) : Type 0 where
  pub owned : (i : ℕ) → is_inside (pc_at s i) ≡ true → s.owner ≡ some i
  pub current : (i : ℕ) (op : Op) (v : ℕ) → pc_at s i ≡ reading op v → v ≡ s.val

true-false : ¬ (false ≡ true)
true-false e = ground (arith, e)

pc_at-set_pc :
    (s : WinAtomic) (i j : ℕ) (pc : Pc) → i < length s.pcs → i ≡ j → pc_at (set_pc i pc s) j ≡ pc
pc_at-set_pc s i j pc h same =
    subst (λ m. pc_at (set_pc i pc s) m ≡ pc) same (get_or-set_same s.pcs i pc outside h)

-- A step of a thread outside, which leaves the section and the value.
IsGuarded-outside :
    (s : WinAtomic) (i : ℕ) (pc : Pc)
    → IsGuarded s
    → i < length s.pcs
    → is_inside pc ≡ false
    → IsGuarded (set_pc i pc s)
IsGuarded-outside s i pc g h e = record {
  owned = λ j k. elim (same_or_other i j) [
    | inl same ↦
        absurd
          (true-false (sym e ∙ subst (λ x. is_inside x ≡ true) (pc_at-set_pc s i j pc h same) k))
    | inr other ↦
        g.owned j (subst (λ x. is_inside x ≡ true) (get_or-set_other s.pcs i j pc outside other) k)
  ];
  current = λ j op v k. elim (same_or_other i j) [
    | inl same ↦ absurd (true-false (sym e ∙ ap is_inside (sym (pc_at-set_pc s i j pc h same) ∙ k)))
    | inr other ↦ g.current j op v (sym (get_or-set_other s.pcs i j pc outside other) ∙ k)
  ];
}

-- A step of a thread `i` when no other is inside.
IsGuarded-alone :
    (s : WinAtomic) (i : ℕ) (pc : Pc) (v : ℕ) (owner : Option ℕ)
    → i < length s.pcs
    → ((j : ℕ) → i ≢ j → ¬ (is_inside (pc_at s j) ≡ true))
    → (is_inside pc ≡ true → owner ≡ some i)
    → ((op : Op) (w : ℕ) → pc ≡ reading op w → w ≡ v)
    → IsGuarded (record { val = v; owner = owner; pcs = set s.pcs i pc })
IsGuarded-alone s i pc v owner h alone own cur = record {
  owned = λ j k. elim (same_or_other i j) [
    | inl same ↦
        own (subst (λ x. is_inside x ≡ true) (pc_at-set_pc s i j pc h same) k) ∙ ap some same
    | inr other ↦ absurd (
        alone j other
          (subst (λ x. is_inside x ≡ true) (get_or-set_other s.pcs i j pc outside other) k))
  ];
  current = λ j op w k. elim (same_or_other i j) [
    | inl same ↦ cur op w (sym (pc_at-set_pc s i j pc h same) ∙ k)
    | inr other ↦
        absurd
          (alone j other (ap is_inside (sym (get_or-set_other s.pcs i j pc outside other) ∙ k)))
  ];
}

-- The thread inside is the only one.
others_outside :
    (s : WinAtomic) (i : ℕ)
    → IsGuarded s
    → is_inside (pc_at s i) ≡ true
    → (j : ℕ) → i ≢ j
    → ¬ (is_inside (pc_at s j) ≡ true)
others_outside s i g e j other k = ground (arith, g.owned i e, g.owned j k, other)

WinStep-IsGuarded : {s t : WinAtomic} {es : List Event} → WinStep s es t → IsGuarded s → IsGuarded t
WinStep-IsGuarded (Windows.calls s i op h e) g = IsGuarded-outside s i (entered op) g h refl
WinStep-IsGuarded (Windows.locks s i op h e free) g =
    IsGuarded-alone s i (locked op) s.val (some i) h
      (λ j other k. ground (arith, free, g.owned j k)) (λ k. refl) (λ o w k. ground (arith, k))
WinStep-IsGuarded (Windows.loads s i h e) g =
    IsGuarded-alone s i (leaving s.val) s.val s.owner h (others_outside s i g (ap is_inside e))
      (λ k. g.owned i (ap is_inside e)) (λ o w k. ground (arith, k))
WinStep-IsGuarded (Windows.stores s i v h e) g =
    IsGuarded-alone s i (leaving 0) v s.owner h (others_outside s i g (ap is_inside e))
      (λ k. g.owned i (ap is_inside e)) (λ o w k. ground (arith, k))
WinStep-IsGuarded (Windows.reads s i op h e u) g =
    IsGuarded-alone s i (reading op s.val) s.val s.owner h (others_outside s i g (ap is_inside e))
      (λ k. g.owned i (ap is_inside e)) (λ o w k. ground (arith, k))
WinStep-IsGuarded (Windows.writes s i op v h e) g =
    IsGuarded-alone s i _ _ s.owner h (others_outside s i g (ap is_inside e))
      (λ k. g.owned i (ap is_inside e)) (λ o w k. ground (arith, k))
WinStep-IsGuarded (Windows.unlocks s i value h e) g =
    IsGuarded-alone s i (finished value) s.val none h (others_outside s i g (ap is_inside e))
      (λ k. ground (arith, k)) (λ o w k. ground (arith, k))
WinStep-IsGuarded (Windows.returns s i value h e) g = IsGuarded-outside s i outside g h refl

pub WinRun-IsGuarded :
    {s t : WinAtomic} {es : List Event} → WinRun s es t → IsGuarded s → IsGuarded t
WinRun-IsGuarded Windows.here g = g
WinRun-IsGuarded (Windows.next r st) g = WinStep-IsGuarded st (WinRun-IsGuarded r g)

pub new_win-IsGuarded : (threads v : ℕ) → IsGuarded (new_win threads v)
unfolding new_win
new_win-IsGuarded threads v = record {
  owned = λ i k.
      absurd (true-false (subst (λ x. is_inside x ≡ true) (get_or-replicate threads i outside) k));
  current = λ i op w k. ground (arith, sym (get_or-replicate threads i outside) ∙ k);
}
