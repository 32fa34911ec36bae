-- ===== src/Handlers/StringLaws.antt =====
-- `usb_get_string`, `usb_get_string_simple`, `usb_get_descriptor` and `usb_get_descriptor_by_endpoint`
-- of LibusbJava.c: the strings made of what libusb left in a buffer.
use owon_vds.Base.{
  ℕ, ◌^◌, ◌%◌, ◌≡◌, ap, ◌∙◌, ◌≢◌, refl, none, some, Option, List, [], ◌∷◌, ◌++◌, ◌+◌, Bool-cases,
  inl, inr, true, ==-ne, if◌then◌else◌,
}
use owon_vds.Base.Int.{ℤ, is_pos, of_jlong, of_jint, of_jbyte, of_jint-mod-of_jbyte}
use owon_vds.Libusb.Api.{Libusb}
use owon_vds.Jni.Api.{Jni, Ref, text, contents}
use owon_vds.Jni.Laws.{Laws, HasRoom, IsCreated}
use owon_vds.Native.State.{State, Outcome, returned, clear_libusb_java_error}
use owon_vds.Busses.DeviceTree.{All}
use owon_vds.Handlers.Transfers.{Memory, malloc}
use owon_vds.Handlers.Strings.{
  c_string, string_reply, descriptor_with, get_string, get_string_simple, get_descriptor,
  get_descriptor_by_endpoint,
}

abbrev pub IsCharacter : ℕ → Type 0
IsCharacter c = c ≢ 0

-- The characters up to the first NUL; the rest does not matter.
c_string-terminated : (t rest : List ℕ) → All IsCharacter t → c_string (t ++ 0 ∷ rest) ≡ some t
unfolding c_string
c_string-terminated [] rest all = refl
c_string-terminated (c ∷ t) rest (here, all) =
    rw (==-ne c 0 here, c_string-terminated t rest all, c_string) refl

-- Without a NUL there is no end.
c_string-unterminated : (l : List ℕ) → All IsCharacter l → c_string l ≡ none
unfolding c_string
c_string-unterminated [] all = refl
c_string-unterminated (c ∷ l) (here, all) =
    rw (==-ne c 0 here, c_string-unterminated l all, c_string) refl

module _ (jni : Jni) (usb : Libusb) where
  -- The call returns a new Java string of the characters `t`, and changes nothing but the virtual
  -- machine.
  abbrev pub IsText :
      State jni.Vm usb.Usb → List ℕ → Outcome (State jni.Vm usb.Usb) (Option Ref) → Type 0
  IsText s t Outcome.fault = ⊥
  IsText s t Outcome.out_of_fuel = ⊥
  IsText s t (returned r s') =
      (o : Ref) × (r ≡ some o)
      × IsCreated jni s.vm o s'.vm
      × (jni.get s'.vm o contents ≡ text t)
      × (s' ≡ record s { vm = s'.vm })

  -- The reply to a request that libusb answered with `n`: a string if that is positive, else NULL.
  abbrev pub Replies :
      ℤ → State jni.Vm usb.Usb → List ℕ → Outcome (State jni.Vm usb.Usb) (Option Ref) → Type 0
  Replies n s t r = if is_pos n then IsText s t r else (r ≡ returned none s)

  string_reply-Replies :
      (laws : Laws jni) (room : HasRoom jni) (n : ℤ) (t rest bytes : List ℕ)
      (s : State jni.Vm usb.Usb)
      → bytes ≡ t ++ 0 ∷ rest
      → All IsCharacter t
      → Replies n s t (string_reply jni usb n bytes s)
  unfolding string_reply
  string_reply-Replies laws room n t rest bytes s answer all =
      let (r, e) = room.string t s.vm in
      let (made, body) = laws.new_string_utf t s.vm r e in
      elim (Bool-cases (is_pos n)) [
        | inl positive ↦
            rw (positive, answer, c_string-terminated t rest all, string_reply)
              (rw e (r, refl, made, body, refl))
        | inr not_positive ↦ rw (not_positive, string_reply) refl
      ]

  string_reply-unterminated :
      (n : ℤ) (l : List ℕ) (s : State jni.Vm usb.Usb)
      → is_pos n ≡ true
      → All IsCharacter l
      → string_reply jni usb n l s ≡ Outcome.fault
  unfolding string_reply
  string_reply-unterminated n l s positive all =
      rw (positive, c_string-unterminated l all, string_reply) refl

  -- Where libusb leaves characters and a NUL in the array of 256 bytes, and the virtual machine has
  -- room for strings: `usb_get_string` returns a new string of these characters if libusb's answer
  -- is positive, and NULL if not. The error is cleared and nothing else changes.
  pub get_string-Replies :
      (laws : Laws jni) (room : HasRoom jni) (string : List ℕ) (dev_handle index langid : ℤ)
      (s : State jni.Vm usb.Usb) (t rest : List ℕ)
      → (usb.usb_get_string (of_jlong dev_handle) index langid string 256 s.usb).1 ≡ t ++ 0 ∷ rest
      → All IsCharacter t
      → let (n, _, u) = usb.usb_get_string (of_jlong dev_handle) index langid string 256 s.usb in
        Replies n
          (record (clear_libusb_java_error s) { usb = u })
          t
          (get_string jni usb string dev_handle index langid s)
  unfolding get_string
  get_string-Replies laws room string dev_handle index langid s t rest answer all =
      let (n, l, u) = usb.usb_get_string (of_jlong dev_handle) index langid string 256 s.usb in
      string_reply-Replies laws room n t rest l (record (clear_libusb_java_error s) { usb = u })
        answer all

  -- Where libusb leaves characters and a NUL in the array of 256 bytes, and the virtual machine has
  -- room for strings: `usb_get_string_simple` returns a new string of these characters if libusb's
  -- answer is positive, and NULL if not. The error is cleared and nothing else changes.
  pub get_string_simple-Replies :
      (laws : Laws jni) (room : HasRoom jni) (string : List ℕ) (dev_handle index : ℤ)
      (s : State jni.Vm usb.Usb) (t rest : List ℕ)
      → (usb.usb_get_string_simple (of_jlong dev_handle) index string 256 s.usb).1 ≡ t ++ 0 ∷ rest
      → All IsCharacter t
      → let (n, _, u) = usb.usb_get_string_simple (of_jlong dev_handle) index string 256 s.usb in
        Replies n
          (record (clear_libusb_java_error s) { usb = u })
          t
          (get_string_simple jni usb string dev_handle index s)
  unfolding get_string_simple
  get_string_simple-Replies laws room string dev_handle index s t rest answer all =
      let (n, l, u) = usb.usb_get_string_simple (of_jlong dev_handle) index string 256 s.usb in
      string_reply-Replies laws room n t rest l (record (clear_libusb_java_error s) { usb = u })
        answer all

  -- The request with the bytes that Java gave, and the block that was allocated for the answer.
  abbrev pub asked :
      (block : List ℕ) (dev_handle type index size : ℤ) → usb.Usb → ℤ × List ℕ × usb.Usb
  asked block dev_handle type index size =
      usb.usb_get_descriptor (of_jlong dev_handle) (of_jbyte type) (of_jbyte index) (some block)
        size

  answered :
      State jni.Vm usb.Usb → ℤ × List ℕ × usb.Usb → Outcome (State jni.Vm usb.Usb) (Option Ref)
  answered s (n, l, u) =
      string_reply jni usb n l
        (record (clear_libusb_java_error s) { usb = u; malloced = s.malloced + 1 })

  get_descriptor-asked :
      (memory : Memory) (block : List ℕ) (dev_handle type index size : ℤ) (s : State jni.Vm usb.Usb)
      → malloc memory size ≡ some block
      → get_descriptor jni usb memory dev_handle type index size s
        ≡ answered s (asked block dev_handle type index size s.usb)
  unfolding get_descriptor answered string_reply
  get_descriptor-asked memory block dev_handle type index size s e =
      let request = usb.usb_get_descriptor (of_jlong dev_handle) in
      ap
        (λ b.
          descriptor_with jni usb
            (λ b'. request (of_jint type % 2 ^ 8) (of_jint index % 2 ^ 8) b' size) b s)
        e
      ∙ ap (λ t. answered s (request t (of_jint index % 2 ^ 8) (some block) size s.usb))
          (of_jint-mod-of_jbyte type)
      ∙ ap (λ i. answered s (request (of_jbyte type) i (some block) size s.usb))
          (of_jint-mod-of_jbyte index)

  -- `usb_get_descriptor` passes the type and the index on as the bytes that Java gave, not
  -- sign-extended. Where `malloc` returns a block, libusb leaves characters and a NUL in it and the
  -- virtual machine has room for strings: a new string of these characters is returned if libusb's
  -- answer is positive, and NULL if not. The error is cleared, the block stays allocated, and
  -- nothing else changes.
  pub get_descriptor-Replies :
      (laws : Laws jni) (room : HasRoom jni) (memory : Memory) (block : List ℕ)
      (dev_handle type index size : ℤ) (s : State jni.Vm usb.Usb) (t rest : List ℕ)
      → malloc memory size ≡ some block
      → (asked block dev_handle type index size s.usb).1 ≡ t ++ 0 ∷ rest
      → All IsCharacter t
      → let (n, _, u) = asked block dev_handle type index size s.usb in
        Replies n
          (record (clear_libusb_java_error s) { usb = u; malloced = s.malloced + 1 })
          t
          (get_descriptor jni usb memory dev_handle type index size s)
  unfolding answered
  get_descriptor-Replies laws room memory block dev_handle type index size s t rest e answer all =
      let (n, l, u) = asked block dev_handle type index size s.usb in
      rw (get_descriptor-asked memory block dev_handle type index size s e) (
        string_reply-Replies laws room n t rest l
          (record (clear_libusb_java_error s) { usb = u; malloced = s.malloced + 1 }) answer all)

  -- Where `malloc` returns a block, libusb's answer is positive and the block then holds no NUL, which
  -- the bytes of a descriptor need not do: `usb_get_descriptor` reads past the end of the block, which is undefined behaviour.
  pub get_descriptor-unterminated :
      (memory : Memory) (block : List ℕ) (dev_handle type index size : ℤ) (s : State jni.Vm usb.Usb)
      → malloc memory size ≡ some block
      → is_pos (asked block dev_handle type index size s.usb).0 ≡ true
      → All IsCharacter (asked block dev_handle type index size s.usb).1
      → get_descriptor jni usb memory dev_handle type index size s ≡ Outcome.fault
  unfolding answered
  get_descriptor-unterminated memory block dev_handle type index size s e positive all =
      let (n, l, u) = asked block dev_handle type index size s.usb in
      rw (get_descriptor-asked memory block dev_handle type index size s e) (
        string_reply-unterminated n l
          (record (clear_libusb_java_error s) { usb = u; malloced = s.malloced + 1 }) positive all)

  -- The request to one endpoint, likewise.
  abbrev pub asked_endpoint :
      (block : List ℕ) (dev_handle ep type index size : ℤ) → usb.Usb → ℤ × List ℕ × usb.Usb
  asked_endpoint block dev_handle ep type index size =
      usb.usb_get_descriptor_by_endpoint (of_jlong dev_handle) ep (of_jbyte type) (of_jbyte index)
        (some block) size

  get_descriptor_by_endpoint-asked :
      (memory : Memory) (block : List ℕ) (dev_handle ep type index size : ℤ)
      (s : State jni.Vm usb.Usb)
      → malloc memory size ≡ some block
      → get_descriptor_by_endpoint jni usb memory dev_handle ep type index size s
        ≡ answered s (asked_endpoint block dev_handle ep type index size s.usb)
  unfolding get_descriptor_by_endpoint answered string_reply
  get_descriptor_by_endpoint-asked memory block dev_handle ep type index size s e =
      let request = usb.usb_get_descriptor_by_endpoint (of_jlong dev_handle) ep in
      ap
        (λ b.
          descriptor_with jni usb
            (λ b'. request (of_jint type % 2 ^ 8) (of_jint index % 2 ^ 8) b' size) b s)
        e
      ∙ ap (λ t. answered s (request t (of_jint index % 2 ^ 8) (some block) size s.usb))
          (of_jint-mod-of_jbyte type)
      ∙ ap (λ i. answered s (request (of_jbyte type) i (some block) size s.usb))
          (of_jint-mod-of_jbyte index)

  -- `usb_get_descriptor_by_endpoint` passes the endpoint on, and the type and the index as the bytes
  -- that Java gave, not sign-extended. Where `malloc` returns a block, libusb leaves characters and a
  -- NUL in it and the virtual machine has room for strings: a new string of these characters is
  -- returned if libusb's answer is positive, and NULL if not. The error is cleared, the block stays
  -- allocated, and nothing else changes.
  pub get_descriptor_by_endpoint-Replies :
      (laws : Laws jni) (room : HasRoom jni) (memory : Memory) (block : List ℕ)
      (dev_handle ep type index size : ℤ) (s : State jni.Vm usb.Usb) (t rest : List ℕ)
      → malloc memory size ≡ some block
      → (asked_endpoint block dev_handle ep type index size s.usb).1 ≡ t ++ 0 ∷ rest
      → All IsCharacter t
      → let (n, _, u) = asked_endpoint block dev_handle ep type index size s.usb in
        Replies n
          (record (clear_libusb_java_error s) { usb = u; malloced = s.malloced + 1 })
          t
          (get_descriptor_by_endpoint jni usb memory dev_handle ep type index size s)
  unfolding answered
  get_descriptor_by_endpoint-Replies laws room memory block dev_handle ep type index size s t rest e
        answer all =
      let (n, l, u) = asked_endpoint block dev_handle ep type index size s.usb in
      rw (get_descriptor_by_endpoint-asked memory block dev_handle ep type index size s e) (
        string_reply-Replies laws room n t rest l
          (record (clear_libusb_java_error s) { usb = u; malloced = s.malloced + 1 }) answer all)
