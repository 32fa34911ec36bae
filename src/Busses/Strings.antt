-- ===== src/Busses/Strings.antt =====
-- The names of busses and devices as Java strings, in `usb_get_busses` of LibusbJava.c.
use owon_vds.Base.{ℕ, ◌≡◌, ◌≢◌, ◌∙◌, sym, true, none, some, List, [], ◌∷◌}
use owon_vds.Jni.Api.{Jni, Ref, object, text, contents}
use owon_vds.Jni.Laws.{Laws, HasRoom, IsRefusal}
use owon_vds.Native.Fields.{Field}
use owon_vds.Native.State.{References}
use owon_vds.Busses.Action.{put_string}
use owon_vds.Busses.Ends.{Ends, mono}
use owon_vds.Busses.Frame.{
  Below, Keeps, Own, Only-trans, Grow-Only, Created-Grow, not-live_of_Below, ne_of_live,
}
use owon_vds.Busses.Puts.{IsResolved, slot, Writes, put-Put}
use owon_vds.Busses.Stable.{Own-widen}

module _ (jni : Jni) {refs : References} (res : IsResolved refs) where
  -- The field holds a new string of these characters.
  abbrev pub IsText : (base w : jni.Vm) → Ref → Field → List ℕ → Type 0
  IsText base w o f l =
      (s : Ref) × (jni.get w o (slot res f) ≡ object (some s))
      × Own jni base w s
      × (jni.get w s contents ≡ text l)

  pub IsText-keep :
      {base v w : jni.Vm} {o : Ref} (f : Field) {l : List ℕ}
      → Keeps jni base v w
      → jni.get w o (slot res f) ≡ jni.get v o (slot res f)
      → IsText base v o f l
      → IsText base w o f l
  IsText-keep f k same (s, at, own, body) =
      let (there, keeps) = k s own.0 own.1 in (s, same ∙ at, (own.0, there), keeps contents ∙ body)

  pub IsText-widen :
      {base base' w : jni.Vm} {o : Ref} (f : Field) {l : List ℕ}
      → Below jni base' base
      → IsText base w o f l
      → IsText base' w o f l
  IsText-widen f b (s, at, own, body) = (s, at, Own-widen jni b own, body)

  pub record Named (base v : jni.Vm) (o : Ref) (f : Field) (l : List ℕ) (w : jni.Vm) : Type 0 where
    pub writes : Writes jni res o ((f, object none) ∷ []) v w
    pub name : IsText base w o f l

  pub put_string-Named :
      (laws : Laws jni) (room : HasRoom jni) {base v : jni.Vm} {o : Ref} (f : Field) (l : List ℕ)
      → Below jni base v
      → jni.live v o ≡ true
      → Ends (IsRefusal jni) (λ _ w. Named base v o f l w) (put_string jni refs o f l v)
  unfolding put_string
  put_string-Named laws room {base} {v} {o} f l below there =
      let (s, e) = room.string l v in
      let (made, body) = laws.new_string_utf l v s e in
      rw (e, put_string)
        (mono (put-Put jni res laws o f (object (some s)) _ (made.keeps_live o there)) λ _ w p.
          let s≢o : s ≢ o = λ q. ne_of_live jni {v = v} o s there made.fresh (sym q) in
          record {
            writes = record {
              only = Only-trans jni (Grow-Only jni o (Created-Grow jni made)) p.writes.only;
              rest = λ g h. p.writes.rest g h ∙ made.keeps o (slot res g) there;
            };
            name = (
              s,
              p.holds.0,
              (not-live_of_Below jni s below made.fresh, p.writes.only.live s made.born),
              p.writes.only.same s contents made.born s≢o ∙ body,
            );
          })
