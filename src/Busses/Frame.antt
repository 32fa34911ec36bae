-- ===== src/Busses/Frame.antt =====
-- Relations between two states of the virtual machine during `usb_get_busses` of LibusbJava.c: the
-- objects that existed before, or all of those but one, are the same.
use owon_vds.Base.{◌≡◌, ◌≢◌, refl, Bool, true, false, ◌∙◌, sym, Bool-cases, inl, inr, ap, subst}
use native.Mathlib.Decide.{ℕ_discrete}
use owon_vds.Jni.Api.{Jni, Ref, Slot, Value, extent}
use owon_vds.Jni.Laws.{IsCreated, IsWritten}

pub not_both : (b : Bool) → b ≡ true → b ≡ false → ⊥
not_both true p q = cc
not_both false p q = cc

module _ (jni : Jni) where
  abbrev pub Below : jni.Vm → jni.Vm → Type 0
  Below v w = (p : Ref) → jni.live v p ≡ true → jni.live w p ≡ true

  -- Nothing that exists in `v` differs in `w`, but `o`.
  pub record Only (o : Ref) (v w : jni.Vm) : Type 0 where
    pub live : Below v w
    pub same : (p : Ref) (s : Slot) → jni.live v p ≡ true → p ≢ o → jni.get w p s ≡ jni.get v p s

  -- Nothing that exists in `v` differs in `w`.
  pub record Grow (v w : jni.Vm) : Type 0 where
    pub live : Below v w
    pub same : (p : Ref) (s : Slot) → jni.live v p ≡ true → jni.get w p s ≡ jni.get v p s

  -- The objects that were made since `base` are the same in `w` as in `v`.
  abbrev pub Keeps : (base v w : jni.Vm) → Type 0
  Keeps base v w =
      (p : Ref)
      → jni.live base p ≡ false
      → jni.live v p ≡ true
      → (jni.live w p ≡ true) × ((s : Slot) → jni.get w p s ≡ jni.get v p s)

  -- The object was made since `base`.
  abbrev pub Own : (base w : jni.Vm) → Ref → Type 0
  Own base w o = (jni.live base o ≡ false) × (jni.live w o ≡ true)

  pub not-live_of_Below :
      {v w : jni.Vm} (p : Ref) → Below v w → jni.live w p ≡ false → jni.live v p ≡ false
  not-live_of_Below {v} {w} p h e = elim (Bool-cases (jni.live v p)) [
    | inl y ↦ absurd (not_both (jni.live w p) (h p y) e)
    | inr n ↦ n
  ]

  pub ne_of_live : {v : jni.Vm} (p o : Ref) → jni.live v p ≡ true → jni.live v o ≡ false → p ≢ o
  ne_of_live {v} p o a b e = not_both (jni.live v o) (ap (jni.live v) (sym e) ∙ a) b

  pub Created-Grow : {v w : jni.Vm} {o : Ref} → IsCreated jni v o w → Grow v w
  Created-Grow c = record { live = c.keeps_live; same = c.keeps }

  pub Grow-refl : (v : jni.Vm) → Grow v v
  Grow-refl v = record { live = λ p h. h; same = λ p s h. refl }

  pub Grow-trans : {u v w : jni.Vm} → Grow u v → Grow v w → Grow u w
  Grow-trans a b = record {
    live = λ p h. b.live p (a.live p h);
    same = λ p s h. b.same p s (a.live p h) ∙ a.same p s h;
  }

  pub Grow-Only : {v w : jni.Vm} (o : Ref) → Grow v w → Only o v w
  Grow-Only o g = record { live = g.live; same = λ p s h ne. g.same p s h }

  pub Only-refl : (o : Ref) (v : jni.Vm) → Only o v v
  Only-refl o v = record { live = λ p h. h; same = λ p s h ne. refl }

  pub Only-trans : {u v w : jni.Vm} {o : Ref} → Only o u v → Only o v w → Only o u w
  Only-trans a b = record {
    live = λ p h. b.live p (a.live p h);
    same = λ p s h ne. b.same p s (a.live p h) ne ∙ a.same p s h ne;
  }

  pub Written-Only :
      {v w : jni.Vm} {o : Ref} {s : Slot} {x : Value} → IsWritten jni v o s x w → Only o v w
  Written-Only e = record {
    live = λ p h. e.keeps_live p ∙ h;
    same = λ p t h ne. e.other_object p t ne;
  }

  -- Writes to an object that was not there yet leave everything alone.
  pub Only-Grow :
      {u v w : jni.Vm} {o : Ref} → jni.live u o ≡ false → Grow u v → Only o v w → Grow u w
  Only-Grow {u} {o} new g h = record {
    live = λ p e. h.live p (g.live p e);
    same = λ p s e. h.same p s (g.live p e) (ne_of_live {v = u} p o e new) ∙ g.same p s e;
  }

  -- Writes to an object that was not there yet are no writes to another.
  pub Only-Only :
      {u v w : jni.Vm} {o : Ref} (a : Ref)
      → jni.live u o ≡ false
      → Only a u v
      → Only o v w
      → Only a u w
  Only-Only {u} {o} a new g h = record {
    live = λ p e. h.live p (g.live p e);
    same = λ p s e ne. h.same p s (g.live p e) (ne_of_live {v = u} p o e new) ∙ g.same p s e ne;
  }

  pub Grow-Keeps : {v w : jni.Vm} (base : jni.Vm) → Grow v w → Keeps base v w
  Grow-Keeps base g p new old = (g.live p old, λ s. g.same p s old)

  pub Only-Keeps :
      {base v w : jni.Vm} {a : Ref} → jni.live base a ≡ true → Only a v w → Keeps base v w
  Only-Keeps {base} {a} there h p new old =
      (h.live p old, λ s. h.same p s old (λ e. ne_of_live {v = base} a p there new (sym e)))

  -- A write to another slot than the length leaves all lengths.
  pub Written-extent :
      {v w : jni.Vm} {o : Ref} {s : Slot} {x : Value}
      → extent ≢ s
      → IsWritten jni v o s x w
      → (p : Ref) → jni.get w p extent ≡ jni.get v p extent
  Written-extent {v} {w} {o} ne wrote p = elim (ℕ_discrete p o) [
    | yes e ↦
        subst (λ q. jni.get w q extent ≡ jni.get v q extent) (sym e) (wrote.other_slot extent ne)
    | no other ↦ wrote.other_object p extent other
  ]
