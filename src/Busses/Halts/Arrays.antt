-- ===== src/Busses/Halts/Arrays.antt =====
-- The loops over arrays in `usb_get_busses` of LibusbJava.c, where one ends the whole call: the array is
-- NULL, or the copy of an element ends it.
use owon_vds.Base.{
  ℕ, zero, suc, ◌+◌, ◌<◌, ◌≤◌, ◌≡◌, ◌∙◌, true, Option, none, some, List, arith, subst,
}
use owon_vds.Base.Int.{ℤ, pos, rounds}
use owon_vds.Jni.Api.{Jni, Ref, size, extent}
use owon_vds.Jni.Laws.{Laws, IsRefusal}
use owon_vds.Native.Fields.{JavaClass}
use owon_vds.Native.State.{References, Message}
use owon_vds.Busses.Action.{Action, fill_array, copy_array, element_or_leave, set_element}
use owon_vds.Busses.Frame.{
  Only, Grow, Only-trans, Only-Only, Only-Grow, Grow-Only, Written-Only, Created-Grow,
}
use owon_vds.Busses.Puts.{IsResolved}
use owon_vds.Busses.ArraySpec.{nth, AllFirst, element_or_leave-nth, IsStable, Fills}
use owon_vds.Busses.Arrays.{new-Created, new_array-Created, store-Round}
use owon_vds.Busses.Halts.{Halts, halts, later, at_once, weaken}

-- The array is NULL, and the count of its elements is not 0.
pub record IsNull {A : Type 0} (n : ℕ) (xs : Option (List A)) : Type 0 where
  pub more : ℕ
  pub count : n ≡ suc more
  pub null : xs ≡ none

-- One of the `n` elements is bad, and those before it are fine.
pub record FirstBad {A : Type 0} (Fine Bad : A → Type 0) (n : ℕ) (xs : Option (List A))
    : Type 0 where
  pub at : ℕ
  pub less : at < n
  pub before : AllFirst Fine at xs
  pub culprit : A
  pub here : nth xs at ≡ some culprit
  pub bad : Bad culprit

module _ (jni : Jni) (laws : Laws jni) {refs : References} (res : IsResolved refs)
    (main : Option Ref) where
  pub copy_array-null :
      {A : Type 0} (c : JavaClass) (object_error array_error : Message) (m : Option Message)
      (fill : Ref → A → Action jni.Vm (Unit {0})) (n : ℤ) (xs : Option (List A)) (v : jni.Vm)
      → IsNull (rounds n) xs
      → Halts
          (IsRefusal jni)
          main
          m
          (Grow jni v)
          (copy_array jni refs c object_error m fill main array_error n xs v)
  unfolding copy_array fill_array element_or_leave
  copy_array-null c object_error array_error m fill n xs v is =
      later (new_array-Created jni laws res n c array_error v)
        λ a w (made, _). rw (is.count, is.null) (halts (Created-Grow jni made))

  -- Filling an object from a bad value ends the call, with no other object changed.
  abbrev pub FillHalts : {A : Type 0} → (A → Type 0) → (Ref → A → Action jni.Vm (Unit {0})) → Type 0
  FillHalts {A} Bad fill =
      (o : Ref) (x : A) (v : jni.Vm)
      → Bad x
      → jni.live v o ≡ true
      → Halts (IsRefusal jni) main none (Only jni o v) (fill o x v)

  module _ {A : Type 0} {R : jni.Vm → jni.Vm → Ref → A → Type 0} (stable : IsStable jni R)
      {P Bad : A → Type 0} {fill : Ref → A → Action jni.Vm (Unit {0})} (fills : Fills jni R P fill)
      (bad : FillHalts Bad fill) (c : JavaClass) (object_error : Message)
      (null_error : Option Message) (xs : Option (List A)) where
    -- `j` more rounds go well, and the next one does not.
    fill_array-Halts :
        (a : Ref) (n k i j : ℕ) (x : A) (v : jni.Vm)
        → jni.live v a ≡ true
        → jni.get v a extent ≡ size (pos n)
        → i + k ≤ n
        → j < k
        → AllFirst P (i + j) xs
        → nth xs (i + j) ≡ some x
        → Bad x
        → Halts
            (IsRefusal jni)
            main
            none
            (Only jni a v)
            (fill_array jni refs c object_error null_error fill main xs a k i v)
    unfolding fill_array set_element
    fill_array-Halts a n zero i j x v there len le lt before at is = absurd (omega arith)
    fill_array-Halts a n (suc k) i zero x v there len le lt before at is =
        let here : nth xs i ≡ some x = subst (λ q. nth xs q ≡ some x) (omega arith) at in
        rw (element_or_leave-nth xs i main null_error x v here) (
          later (new-Created jni laws res c object_error v) λ o w made.
            let live1 = made.keeps_live a there in
            let wrote =
              laws.set_object_array_element a i n (some o) w live1 (made.keeps a extent there ∙ len)
                (omega arith) in
            at_once _ (
              weaken (bad o x _ is (wrote.keeps_live o ∙ made.born)) λ u only.
                Only-Only jni a made.fresh
                  (Only-trans jni (Grow-Only jni a (Created-Grow jni made))
                    (Written-Only jni wrote))
                  only))
    fill_array-Halts a n (suc k) i (suc j) x v there len le lt before at is =
        let (y, here, fine) = before i (omega arith) in
        rw (element_or_leave-nth xs i main null_error y v here) (
          later (new-Created jni laws res c object_error v) λ o w made.
            later
              (store-Round jni laws res stable fills c object_error null_error main xs {base = v} i
                n y (λ p h. h) there len (omega arith) fine made)
              λ _ u r.
                weaken
                  (fill_array-Halts a n k (i + 1) j x u (r.only.live a there)
                    (r.others extent (λ e. cc) ∙ len) (omega arith) (omega arith)
                    (λ q lt'. before q (omega arith))
                    (subst (λ q. nth xs q ≡ some x) (omega arith) at) is)
                  λ z only. Only-trans jni r.only only)

    pub copy_array-Halts :
        (array_error : Message) (n : ℤ) (v : jni.Vm)
        → FirstBad P Bad (rounds n) xs
        → Halts
            (IsRefusal jni)
            main
            none
            (Grow jni v)
            (copy_array jni refs c object_error null_error fill main array_error n xs v)
    unfolding copy_array fill_array
    copy_array-Halts array_error (ℤ.negsuc n) v is = absurd (omega (arith, is.less))
    copy_array-Halts array_error (pos n) v is =
        later (new_array-Created jni laws res (pos n) c array_error v) λ a w (made, len).
          at_once _ (
            weaken
              (fill_array-Halts a n n 0 is.at is.culprit w made.born len (omega arith) is.less
                (λ q lt. is.before q (omega arith))
                (subst (λ q. nth xs q ≡ some is.culprit) (omega arith) is.here) is.bad)
              λ u only. Only-Grow jni made.fresh (Created-Grow jni made) only)
