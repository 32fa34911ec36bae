-- ===== src/Busses/Bodies.antt =====
-- The writes that fill an interface descriptor or a configuration in `usb_get_busses` of LibusbJava.c:
-- its numbers, its extra bytes, and the array of its parts.
use owon_vds.Base.{ℕ, ◌≡◌, ◌∙◌, true, Option, none, some, List, [], ◌∷◌}
use owon_vds.Base.Int.{ℤ}
use owon_vds.Jni.Api.{Jni, Ref, Value, object}
use owon_vds.Jni.Laws.{Laws, HasRoom, IsRefusal}
use owon_vds.Native.Fields.{Field}
use owon_vds.Native.State.{References}
use owon_vds.Busses.Action.{Step, Action, and_then, ◌>>=◌, ◌>>◌, put, puts, put_extra}
use owon_vds.Busses.Ends.{Ends, bind, mono}
use owon_vds.Busses.Frame.{Below, Only, Grow, Only-trans, Grow-Only, Only-Keeps}
use owon_vds.Busses.Puts.{
  IsResolved, slot, away, all_away, distinct, Writes, Writes-trans, Holds, puts-Put, put-Put,
  Holds-spared,
}
use owon_vds.Busses.ArraySpec.{IsStable, IsArray}
use owon_vds.Busses.Tree.{IsExtraOk, IsExtra, HoldsArray}
use owon_vds.Busses.Stable.{IsArray-keep, IsArray-widen}
use owon_vds.Busses.Extra.{put_extra-Extra, IsExtra-spared}

module _ (jni : Jni) (laws : Laws jni) (room : HasRoom jni) {refs : References}
    (res : IsResolved refs) where
  -- An array is made and put into a field; the object's other fields are as before.
  pub record Tail {A : Type 0} (R : jni.Vm → jni.Vm → Ref → A → Type 0) (base v : jni.Vm) (o : Ref)
      (f : Field) (n : ℤ) (xs : Option (List A)) (w : jni.Vm) : Type 0 where
    pub writes : Writes jni res o ((f, object none) ∷ []) v w
    pub array : HoldsArray jni res R base w o f n xs

  -- A descriptor's numbers, its `extra` in the field `f`, and its array in the field `g`.
  pub record Body {A : Type 0} (R : jni.Vm → jni.Vm → Ref → A → Type 0) (base v : jni.Vm) (o : Ref)
      (l : List (Field × Value)) (f : Field) (e : Option (List ℕ)) (len : ℤ) (g : Field) (n : ℤ)
      (xs : Option (List A)) (w : jni.Vm) : Type 0 where
    pub only : Only jni o v w
    pub fields : Holds jni res w o l
    pub extra : IsExtra jni res base w o f e len
    pub array : HoldsArray jni res R base w o g n xs

  module _ {A : Type 0} {R : jni.Vm → jni.Vm → Ref → A → Type 0} (stable : IsStable jni R) where
    pub put_array-Tail :
        {base v : jni.Vm} {o : Ref} (f : Field) {n : ℤ} {xs : Option (List A)} {r : Step jni.Vm Ref}
        → Below jni base v
        → jni.live v o ≡ true
        → Ends (IsRefusal jni) (λ a w. Grow jni v w × IsArray jni R v w n xs a) r
        → Ends
            (IsRefusal jni)
            (λ _ w. Tail R base v o f n xs w)
            (and_then r (λ a. put jni refs o f (object (some a))))
    put_array-Tail {v} {o} f below there made = bind made λ a w (grown, is).
        mono (put-Put jni res laws o f (object (some a)) w (grown.live o there)) λ _ u p.
          let kept = IsArray-keep jni stable (Only-Keeps jni there p.writes.only) is in
          record {
            writes = record {
              only = Only-trans jni (Grow-Only jni o grown) p.writes.only;
              rest = λ h out. p.writes.rest h out ∙ grown.same o (slot res h) there;
            };
            array = (a, p.holds.0, IsArray-widen jni stable below kept);
          }

    -- The steps that fill an interface descriptor or a configuration.
    pub fill-Body :
        {base v : jni.Vm} {o : Ref} (l : List (Field × Value)) (f : Field) (e : Option (List ℕ))
        (len : ℤ) (g : Field) {n : ℤ} {xs : Option (List A)} {copy : Action jni.Vm Ref}
        → Below jni base v
        → jni.live v o ≡ true
        → distinct l ≡ true
        → all_away l ((f, object none) ∷ (g, object none) ∷ []) ≡ true
        → away f ((g, object none) ∷ []) ≡ true
        → IsExtraOk e len
        → ((u : jni.Vm)
            → Ends (IsRefusal jni) (λ a w. Grow jni u w × IsArray jni R u w n xs a) (copy u))
        → Ends
            (IsRefusal jni)
            (λ _ w. Body R base v o l f e len g n xs w)
            (and_then (puts jni refs o l v) (λ _.
              put_extra jni refs o f e len >> (copy >>= λ a. put jni refs o g (object (some a)))))
    fill-Body {base} {v} {o} l f e len g below there apart out out' fine copied =
        bind (puts-Put jni res laws o l v there apart) λ _ w p.
          let old = p.writes.only.live o there in
          let below' = λ (q : Ref) (h : jni.live base q ≡ true). p.writes.only.live q (below q h) in
          bind (put_extra-Extra jni laws room res {base = w} f (λ q h. h) old e len fine) λ _ u x.
            mono
              (put_array-Tail g (λ q h. x.writes.only.live q (below' q h))
                (x.writes.only.live o old) (copied u))
              λ _ z t. record {
                only = Only-trans jni p.writes.only (Only-trans jni x.writes.only t.writes.only);
                fields =
                    Holds-spared jni res l _ out (Writes-trans jni res x.writes t.writes) p.holds;
                extra = IsExtra-spared jni laws room res f e len below' old out' t.writes x.extra;
                array = t.array;
              }
