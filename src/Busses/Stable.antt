-- ===== src/Busses/Stable.antt =====
-- Lemmas on the relations of the specification of `usb_get_busses`: what they say of an object when
-- other objects are written or made.
use owon_vds.Base.{ℕ, ◌≡◌, ◌∙◌, Option, none, some, List}
use owon_vds.Base.Int.{ℤ}
use owon_vds.Jni.Api.{Jni, Ref, Slot, Value, element, extent, contents}
use owon_vds.Native.Fields.{Field}
use owon_vds.Native.State.{References}
use owon_vds.Busses.Descriptors.{
  endpoint_fields, interface_descriptor_fields, interface_fields, config_fields,
}
use owon_vds.Busses.Frame.{Below, Keeps, Own, not-live_of_Below}
use owon_vds.Busses.Puts.{IsResolved, slot, Holds, Holds-rest}
use owon_vds.Busses.ArraySpec.{IsStable, IsArray}
use owon_vds.Busses.Tree.{
  IsExtra, HoldsArray, IsEndpoint, IsInterfaceDescriptor, IsInterface, IsConfig,
}

module _ (jni : Jni) where
  pub Own-keep :
      {base v w : jni.Vm} {o : Ref} → Keeps jni base v w → Own jni base v o → Own jni base w o
  Own-keep {o} k own = (own.0, (k o own.0 own.1).0)

  pub Own-widen :
      {base base' w : jni.Vm} {o : Ref}
      → Below jni base' base
      → Own jni base w o
      → Own jni base' w o
  Own-widen {o} b own = (not-live_of_Below jni o b own.0, own.1)

  pub get-keep :
      {base v w : jni.Vm} {o : Ref} (s : Slot)
      → Keeps jni base v w
      → Own jni base v o
      → jni.get w o s ≡ jni.get v o s
  get-keep {o} s k own = (k o own.0 own.1).1 s

  module _ {A : Type 0} {R : jni.Vm → jni.Vm → Ref → A → Type 0} (stable : IsStable jni R) where
    pub IsArray-keep :
        {base v w : jni.Vm} {n : ℤ} {xs : Option (List A)} {a : Ref}
        → Keeps jni base v w
        → IsArray jni R base v n xs a
        → IsArray jni R base w n xs a
    IsArray-keep {base} {v} {w} k h = record {
      own = Own-keep k h.own;
      extent = get-keep extent k h.own ∙ h.extent;
      elements = λ j lt.
          let (x, o, at, stored, stands) = h.elements j lt in
          (x, o, at, get-keep (element j) k h.own ∙ stored, stable.keep base v w o x k stands);
    }

    pub IsArray-widen :
        {base base' w : jni.Vm} {n : ℤ} {xs : Option (List A)} {a : Ref}
        → Below jni base' base
        → IsArray jni R base w n xs a
        → IsArray jni R base' w n xs a
    IsArray-widen {base} {base'} {w} b h = record {
      own = Own-widen b h.own;
      extent = h.extent;
      elements = λ j lt.
          let (x, o, at, stored, stands) = h.elements j lt in
          (x, o, at, stored, stable.widen base base' w o x b stands);
    }

  module _ {refs : References} (res : IsResolved refs) where
    pub Holds-keep :
        {base v w : jni.Vm} {o : Ref} (l : List (Field × Value))
        → Keeps jni base v w
        → Own jni base v o
        → Holds jni res v o l
        → Holds jni res w o l
    Holds-keep l k own = Holds-rest jni res l (λ f. get-keep (slot res f) k own)

    pub IsExtra-keep :
        {base v w : jni.Vm} {o : Ref} (f : Field) (e : Option (List ℕ)) (len : ℤ)
        → Keeps jni base v w
        → Own jni base v o
        → IsExtra jni res base v o f e len
        → IsExtra jni res base w o f e len
    IsExtra-keep f none _ k own h = get-keep (slot res f) k own ∙ h
    IsExtra-keep f (some l) _ k own (a, at, new, len, body) = (
      a,
      get-keep (slot res f) k own ∙ at,
      Own-keep k new,
      get-keep extent k new ∙ len,
      get-keep contents k new ∙ body,
    )

    pub IsExtra-widen :
        {base base' : jni.Vm} (w : jni.Vm) (o : Ref) (f : Field) (e : Option (List ℕ)) (len : ℤ)
        → Below jni base' base
        → IsExtra jni res base w o f e len
        → IsExtra jni res base' w o f e len
    IsExtra-widen w o f none n b h = h
    IsExtra-widen w o f (some l) n b (a, at, new, len, body) = (a, at, Own-widen b new, len, body)

    module _ {A : Type 0} {R : jni.Vm → jni.Vm → Ref → A → Type 0} (stable : IsStable jni R) where
      pub HoldsArray-keep :
          {base v w : jni.Vm} {o : Ref} {f : Field} {n : ℤ} {xs : Option (List A)}
          → Keeps jni base v w
          → Own jni base v o
          → HoldsArray jni res R base v o f n xs
          → HoldsArray jni res R base w o f n xs
      HoldsArray-keep {f} k own (a, at, h) =
          (a, get-keep (slot res f) k own ∙ at, IsArray-keep stable k h)

      pub HoldsArray-widen :
          {base base' w : jni.Vm} {o : Ref} {f : Field} {n : ℤ} {xs : Option (List A)}
          → Below jni base' base
          → HoldsArray jni res R base w o f n xs
          → HoldsArray jni res R base' w o f n xs
      HoldsArray-widen b (a, at, h) = (a, at, IsArray-widen stable b h)

    pub IsEndpoint-stable : IsStable jni (IsEndpoint jni res)
    IsEndpoint-stable = record {
      keep = λ base v w o d k h. record {
        own = Own-keep k h.own;
        fields = Holds-keep (endpoint_fields d) k h.own h.fields;
        extra = IsExtra-keep Field.ep_desc_extra d.extra d.extralen k h.own h.extra;
      };
      widen = λ base base' w o d b h. record {
        own = Own-widen b h.own;
        fields = h.fields;
        extra = IsExtra-widen w o Field.ep_desc_extra d.extra d.extralen b h.extra;
      };
    }

    pub IsInterfaceDescriptor-stable : IsStable jni (IsInterfaceDescriptor jni res)
    IsInterfaceDescriptor-stable = record {
      keep = λ base v w o d k h. record {
        own = Own-keep k h.own;
        fields = Holds-keep (interface_descriptor_fields d) k h.own h.fields;
        extra = IsExtra-keep Field.int_desc_extra d.extra d.extralen k h.own h.extra;
        endpoints = HoldsArray-keep IsEndpoint-stable k h.own h.endpoints;
      };
      widen = λ base base' w o d b h. record {
        own = Own-widen b h.own;
        fields = h.fields;
        extra = IsExtra-widen w o Field.int_desc_extra d.extra d.extralen b h.extra;
        endpoints = HoldsArray-widen IsEndpoint-stable b h.endpoints;
      };
    }

    pub IsInterface-stable : IsStable jni (IsInterface jni res)
    IsInterface-stable = record {
      keep = λ base v w o d k h. record {
        own = Own-keep k h.own;
        fields = Holds-keep (interface_fields d) k h.own h.fields;
        altsettings = HoldsArray-keep IsInterfaceDescriptor-stable k h.own h.altsettings;
      };
      widen = λ base base' w o d b h. record {
        own = Own-widen b h.own;
        fields = h.fields;
        altsettings = HoldsArray-widen IsInterfaceDescriptor-stable b h.altsettings;
      };
    }

    pub IsConfig-stable : IsStable jni (IsConfig jni res)
    IsConfig-stable = record {
      keep = λ base v w o d k h. record {
        own = Own-keep k h.own;
        fields = Holds-keep (config_fields d) k h.own h.fields;
        extra = IsExtra-keep Field.conf_desc_extra d.extra d.extralen k h.own h.extra;
        interfaces = HoldsArray-keep IsInterface-stable k h.own h.interfaces;
      };
      widen = λ base base' w o d b h. record {
        own = Own-widen b h.own;
        fields = h.fields;
        extra = IsExtra-widen w o Field.conf_desc_extra d.extra d.extralen b h.extra;
        interfaces = HoldsArray-widen IsInterface-stable b h.interfaces;
      };
    }
