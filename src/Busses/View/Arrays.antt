-- ===== src/Busses/View/Arrays.antt =====
-- How Java code reads an array that `usb_get_busses` of LibusbJava.c has copied.
use owon_vds.Base.{
  ℕ, zero, suc, ◌+◌, ◌<◌, ◌≡◌, ◌∙◌, refl, ap, sym, subst, Option, none, some, List, [], ◌∷◌, map,
  take, arith, get_elem?,
}
use owon_vds.Base.Int.{ℤ, rounds}
use owon_vds.Jni.Api.{Jni, Ref, object, element}
use owon_vds.Native.Fields.{Field}
use owon_vds.Native.State.{References}
use owon_vds.Busses.Puts.{IsResolved, slot}
use owon_vds.Busses.ArraySpec.{AllFirst, Element, IsArray}
use owon_vds.Busses.Tree.{IsExtra, HoldsArray}
use owon_vds.Busses.Strings.{IsText}
use owon_vds.Busses.View.{seen_extra, seen_array, read_elements, read_array, read_extra, read_text}

module _ (jni : Jni) {refs : References} (res : IsResolved refs) (w : jni.Vm) where
  module _ {A B : Type 0} (f : Ref → B) (seen : A → B) where
    -- The elements from `i` on are read as the list's elements.
    Reads : Ref → (k i : ℕ) → List A → Type 0
    Reads a k i l =
        (j m : ℕ)
        → m ≡ i + j
        → j < k
        → (x : A) × (o : Ref) × (get_elem? l j ≡ some x)
          × (jni.get w a (element m) ≡ object (some o))
          × (f o ≡ seen x)

    read_elements-map :
        (a : Ref) (k i : ℕ) (l : List A)
        → Reads a k i l
        → read_elements jni res w f a k i ≡ map seen (take k l)
    unfolding Reads
    read_elements-map a zero i l h = refl
    read_elements-map a (suc k) i [] h =
        let (x, o, at, stored, e) = h 0 i (omega arith) (omega arith) in cc at
    read_elements-map a (suc k) i (y ∷ l) h =
        let (x, o, at, stored, e) = h 0 i (omega arith) (omega arith) in
        let head : f o ≡ seen y = e ∙ ap seen (sym (cc at)) in
        let ih =
          read_elements-map a k (i + 1) l (λ j m q lt. h (suc j) m (omega arith) (omega arith)) in
        rw (stored, read_elements) (λ t. head t ∷ ih t)

  module _ {A B : Type 0} {R : jni.Vm → jni.Vm → Ref → A → Type 0} (f : Ref → B) (seen : A → B)
      (P : A → Type 0)
      (reads : (base : jni.Vm) (o : Ref) (x : A) → R base w o x → P x → f o ≡ seen x) where
    -- A copied array is read as the C array.
    pub read_array-seen_array :
        (base : jni.Vm) (n : ℤ) (xs : Option (List A)) (a : Ref)
        → IsArray jni R base w n xs a
        → AllFirst P (rounds n) xs
        → read_array jni res w f (object (some a)) ≡ seen_array seen (rounds n) xs
    unfolding Reads
    read_array-seen_array base n (some l) a is all = rw is.extent (
        read_elements-map f seen a (rounds n) 0 l (λ j m e lt.
          let (x, o, at, stored, stands) = is.elements j lt in
          let (y, at', p) = all j lt in
          let same : m ≡ j = omega arith in
          let py : P x = subst P (cc (at, at')) p in
          (x, o, at, rw same stored, reads base o x stands py)))
    read_array-seen_array base n none a is all = rw is.extent (none_read (rounds n) is.elements)
      where
        none_read :
            (k : ℕ)
            → ((i : ℕ) → i < k → Element jni R base w a none i)
            → read_elements jni res w f a k 0 ≡ []
        none_read zero h = refl
        none_read (suc k) h = let (x, o, at, stored, stands) = h 0 (omega arith) in cc at

    pub read_held :
        (base : jni.Vm) (n : ℤ) (xs : Option (List A)) (o : Ref) (g : Field)
        → HoldsArray jni res R base w o g n xs
        → AllFirst P (rounds n) xs
        → read_array jni res w f (jni.get w o (slot res g)) ≡ seen_array seen (rounds n) xs
    read_held base n xs o g (a, at, is) all = rw at (read_array-seen_array base n xs a is all)

  pub read_extra-seen_extra :
      (base : jni.Vm) (o : Ref) (g : Field) (e : Option (List ℕ)) (len : ℤ)
      → IsExtra jni res base w o g e len
      → read_extra jni res w o g ≡ seen_extra e len
  read_extra-seen_extra base o g none len h = rw (h, read_extra) refl
  read_extra-seen_extra base o g (some l) len (a, at, own, ext, held) =
      rw (at, held, read_extra) refl

  pub read_text-IsText :
      (base : jni.Vm) (o : Ref) (g : Field) (l : List ℕ)
      → IsText jni res base w o g l
      → read_text jni res w o g ≡ l
  read_text-IsText base o g l (s, at, own, held) = rw (at, held, read_text) refl
