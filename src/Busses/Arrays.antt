-- ===== src/Busses/Arrays.antt =====
-- The loops over arrays in `usb_get_busses` of LibusbJava.c, for any element.
use owon_vds.Base.{
  inl, inr, ℕ, zero, suc, ◌+◌, ◌<◌, ◌≤◌, ◌≡◌, ◌≢◌, refl, ◌∙◌, true, false, Option, some, List,
  arith,
}
use owon_vds.Base.Int.{ℤ, pos, rounds}
use native.Mathlib.Decide.{ℕ_discrete}
use owon_vds.Jni.Api.{Jni, Ref, Slot, object, size, element, extent}
use owon_vds.Jni.Laws.{Laws, IsCreated, IsWritten, IsRefusal}
use owon_vds.Native.Fields.{JavaClass}
use owon_vds.Native.State.{References, Message}
use owon_vds.Busses.Action.{Action, and_then, new, new_array, set_element, fill_array, copy_array}
use owon_vds.Busses.Ends.{Ends, ends, bind, mono, or_give_up-Ends}
use owon_vds.Busses.Frame.{
  Below, Only, Grow, Only-refl, Only-trans, Only-Only, Only-Grow, Only-Keeps, Grow-Only,
  Written-Only, Created-Grow, not-live_of_Below, ne_of_live,
}
use owon_vds.Busses.Puts.{IsResolved}
use owon_vds.Busses.ArraySpec.{
  nth, AllFirst, element_or_leave-nth, IsStable, Fills, Element, IsArray,
}

module _ (jni : Jni) (laws : Laws jni) {refs : References} (res : IsResolved refs) where
  pub new-Created :
      (c : JavaClass) (m : Message) (v : jni.Vm)
      → Ends (IsRefusal jni) (IsCreated jni v) (new jni refs c m v)
  unfolding new
  new-Created c m v =
      rw (res.classes c, res.methods c, new)
        (or_give_up-Ends _ m _ (λ e. inl (res.class_id c, res.method_id c, v, e, refl))
          λ o e. laws.new_object (res.class_id c) (res.method_id c) v o e)

  pub new_array-Created :
      (n : ℤ) (c : JavaClass) (m : Message) (v : jni.Vm)
      → Ends
          (IsRefusal jni)
          (λ a w. IsCreated jni v a w × (jni.get w a extent ≡ size n))
          (new_array jni refs n c m v)
  unfolding new_array
  new_array-Created n c m v =
      rw (res.classes c, new_array)
        (or_give_up-Ends _ m _ (λ e. inr (n, res.class_id c, v, e, refl))
          λ a e. laws.new_object_array n (res.class_id c) v a e)

  module _ {A : Type 0} {R : jni.Vm → jni.Vm → Ref → A → Type 0} (stable : IsStable jni R)
      {P : A → Type 0} {fill : Ref → A → Action jni.Vm (Unit {0})} (fills : Fills jni R P fill)
      (c : JavaClass) (object_error : Message) (null_error : Option Message) (main : Option Ref)
      (xs : Option (List A)) where
    -- Rounds `i` to `i + k - 1` of the loop over the array `a`.
    record Filled (base v : jni.Vm) (a : Ref) (k i : ℕ) (w : jni.Vm) : Type 0 where
      only : Only jni a v w
      extent : jni.get w a extent ≡ jni.get v a extent
      before : (j : ℕ) → j < i → jni.get w a (element j) ≡ jni.get v a (element j)
      elements : (j : ℕ) → i ≤ j → j < i + k → Element jni R base w a xs j

    -- One round: the object is made, stored and filled.
    pub record Round (base v : jni.Vm) (a : Ref) (i : ℕ) (x : A) (o : Ref) (w : jni.Vm)
        : Type 0 where
      pub only : Only jni a v w
      stored : jni.get w a (element i) ≡ object (some o)
      pub others : (s : Slot) → s ≢ element i → jni.get w a s ≡ jni.get v a s
      stands : R base w o x

    Round-Filled :
        {base v w u : jni.Vm} {a : Ref} {k i : ℕ} {x : A} {o : Ref}
        → jni.live base a ≡ true
        → nth xs i ≡ some x
        → Round base v a i x o w
        → Filled base w a k (i + 1) u
        → Filled base v a (suc k) i u
    Round-Filled {base} {v} {w} {u} {a} {k} {i} {x} {o} there at r f = record {
      only = Only-trans jni r.only f.only;
      extent = f.extent ∙ r.others extent (λ e. cc);
      before = λ j h. f.before j (omega arith) ∙ r.others (element j) (ground arith);
      elements = λ j lo hi. elim (ℕ_discrete i j) [
        | yes e ↦
            let kept = stable.keep base w u o x (Only-Keeps jni there f.only) r.stands in
            rw (← e) (x, o, at, f.before i (omega arith) ∙ r.stored, kept)
        | no ne ↦ f.elements j (omega arith) (omega arith)
      ];
    }

    -- From the new object on: it is stored in the array, then filled.
    pub store-Round :
        {base v v' : jni.Vm} {a o : Ref} (i n : ℕ) (x : A)
        → Below jni base v
        → jni.live base a ≡ true
        → jni.get v a extent ≡ size (pos n)
        → i < n
        → P x
        → IsCreated jni v o v'
        → Ends
            (IsRefusal jni)
            (λ _ w. Round base v a i x o w)
            (and_then (set_element jni refs a i o v') (λ _. fill o x))
    unfolding set_element
    store-Round {base} {v} {v'} {a} {o} i n x below there len lt px made =
        mono (fills base v2 o x below2 new (wrote.keeps_live o ∙ made.born) px) λ _ w (only, rep).
          record {
            only = Only-Only jni a made.fresh (Only-trans jni grown (Written-Only jni wrote)) only;
            stored = only.same a (element i) live2 a≢o ∙ wrote.written;
            others = λ s ne.
                only.same a s live2 a≢o ∙ wrote.other_slot s ne ∙ made.keeps a s (below a there);
            stands = rep;
          }
      where
        live1 : jni.live v' a ≡ true
        live1 = made.keeps_live a (below a there)

        grown : Only jni a v v'
        grown = Grow-Only jni a (Created-Grow jni made)

        v2 : jni.Vm
        v2 = jni.set_object_array_element a i (some o) v'

        wrote : IsWritten jni v' a (element i) (object (some o)) v2
        wrote =
            laws.set_object_array_element a i n (some o) v' live1
              (made.keeps a extent (below a there) ∙ len) lt

        live2 : jni.live v2 a ≡ true
        live2 = wrote.keeps_live a ∙ live1

        below2 : Below jni base v2
        below2 p h = wrote.keeps_live p ∙ made.keeps_live p (below p h)

        new : jni.live base o ≡ false
        new = not-live_of_Below jni o below made.fresh

        a≢o : a ≢ o
        a≢o = ne_of_live jni {v = base} a o there new

    none-Filled : (base : jni.Vm) (a : Ref) (i : ℕ) (v : jni.Vm) → Filled base v a 0 i v
    none-Filled base a i v = record {
      only = Only-refl jni a v;
      extent = refl;
      before = λ j h. refl;
      elements = λ j lo hi. absurd (omega arith);
    }

    fill_array-Filled :
        (base : jni.Vm) (a : Ref) (n k i : ℕ) (v : jni.Vm)
        → Below jni base v
        → jni.live base a ≡ true
        → jni.get v a extent ≡ size (pos n)
        → i + k ≤ n
        → AllFirst P n xs
        → Ends
            (IsRefusal jni)
            (λ _ w. Filled base v a k i w)
            (fill_array jni refs c object_error null_error fill main xs a k i v)
    unfolding fill_array set_element
    fill_array-Filled base a n zero i v below there len le all = ends (none-Filled base a i v)
    fill_array-Filled base a n (suc k) i v below there len le all =
        let (x, at, px) = all i (omega arith) in
        rw (element_or_leave-nth xs i main null_error x v at) (
          bind (new-Created c object_error v) λ o v' made.
            bind (store-Round i n x below there len (omega arith) px made) λ _ w r.
              mono
                (fill_array-Filled base a n k (i + 1) w (λ p h. r.only.live p (below p h)) there
                  (r.others extent (λ e. cc) ∙ len) (omega arith) all)
                λ _ u f. Round-Filled there at r f)

    Filled-IsArray :
        {base v v' w : jni.Vm} {n : ℤ} {a : Ref}
        → Below jni base v
        → IsCreated jni v a v'
        → jni.get v' a extent ≡ size n
        → Filled v' v' a (rounds n) 0 w
        → Grow jni v w × IsArray jni R base w n xs a
    Filled-IsArray {base} {v'} {w} {a} below made len f = (
      Only-Grow jni made.fresh (Created-Grow jni made) f.only,
      record {
        own = (not-live_of_Below jni a below made.fresh, f.only.live a made.born);
        extent = f.extent ∙ len;
        elements = λ j lt.
            let (x, o, at, stored, stands) = f.elements j (omega arith) (omega arith) in
            (
              x,
              o,
              at,
              stored,
              stable.widen v' base w o x (λ p h. made.keeps_live p (below p h)) stands,
            );
      },
    )

    -- The array that is made, with its elements, is new; all that was there is as before.
    pub copy_array-IsArray :
        (array_error : Message) (n : ℤ) (base v : jni.Vm)
        → Below jni base v
        → AllFirst P (rounds n) xs
        → Ends
            (IsRefusal jni)
            (λ a w. Grow jni v w × IsArray jni R base w n xs a)
            (copy_array jni refs c object_error null_error fill main array_error n xs v)
    unfolding copy_array fill_array
    copy_array-IsArray array_error (pos n) base v below all =
        bind (new_array-Created (pos n) c array_error v) λ a v' (made, len).
          bind (fill_array-Filled v' a n n 0 v' (λ p h. h) made.born len (omega arith) all)
            λ _ w f. ends (Filled-IsArray below made len f)
    copy_array-IsArray array_error (ℤ.negsuc n) base v below all =
        bind (new_array-Created (ℤ.negsuc n) c array_error v)
          λ a v' (made, len). ends (Filled-IsArray below made len (none-Filled v' a 0 v'))
