-- ===== src/Mica/Update/RoundTrip.antt =====
-- pkg/libmica: what resource_manager.go asks for reaches xl as it was meant.
use micrun.Prelude.{
  Bool-cases, inl, inr, ltb, ◌==◌, if◌then◌else◌, ℕ, ◌≤◌, ◌≡◌, ◌≢◌, refl, ◌∙◌, ap, List, [], ◌∷◌,
  ◌++◌, true, false, Bytes, codes, arith, pos, append_assoc, append-nil,
}
use micrun.Text.{itoa, max_int, atoi-itoa, itoa-Solid, itoa-ne-nil, Solid, join}
use micrun.Pedestal.Essential.{xen}
use micrun.Pedestal.Xl.{xl_mem_set, xl_mem_max, xl_vcpu_set, xl_sched_credit2}
use micrun.Mica.Host.{Host}
use micrun.Mica.Update.{
  fields_from, fields, parse_update_args, xl_as_mica_update, update_resource,
  handle_mica_update_with_xl, ended, forced_weight, first_and_rest, is_nil,
}

-- A text with no space is a word.
fields_from-Solid : (word s : Bytes) → Solid s → fields_from word s ≡ ended (word ++ s) []
unfolding fields_from
fields_from-Solid word [] _ = rw (append-nil word) refl
fields_from-Solid word (c ∷ s) (hc, h) =
    rw hc (
      fields_from-Solid (word ++ (c ∷ [])) s h
      ∙ ap (λ w. ended w []) (append_assoc word (c ∷ []) s))

-- A blank ends a word.
fields_from-append :
    (word s t : Bytes)
    → Solid s
    → fields_from word (s ++ (b' ' ∷ t)) ≡ ended (word ++ s) (fields_from [] t)
unfolding fields_from
fields_from-append word [] t _ = rw (append-nil word) refl
fields_from-append word (c ∷ s) t (hc, h) = rw hc (
    fields_from-append (word ++ (c ∷ [])) s t h
    ∙ ap (λ w. ended w (fields_from [] t)) (append_assoc word (c ∷ []) s))

ended_cons : (s : Bytes) (rest : List Bytes) → s ≢ [] → ended s rest ≡ s ∷ rest
ended_cons [] rest h = absurd (h refl)
ended_cons (c ∷ s) rest h = refl

-- A key and a value with a blank between them are taken apart again.
pub parse_update_args_lem :
    (key value : Bytes)
    → Solid key
    → key ≢ []
    → Solid value
    → value ≢ []
    → parse_update_args ((key ++ (b' ' ∷ value)) ∷ []) ≡ (key, value)
unfolding parse_update_args fields join
parse_update_args_lem key value hk nk hv nv = ap first_and_rest (
    fields_from-append [] key value hk
    ∙ ended_cons key _ nk
    ∙ ap (◌∷◌ key) (fields_from-Solid [] value hv ∙ ended_cons value [] nv))

module _ {W : Type 0} (host : Host W) where
  reach_switch :
      (id key : Bytes) (n : ℕ) (w : W)
      → host.ped ≡ xen
      → xl_as_mica_update host.workaround ≡ true
      → Solid key
      → is_nil key ≡ false
      → handle_mica_update_with_xl host id ((key ++ (b' ' ∷ itoa n)) ∷ []) w
        ≡ update_resource host id key (itoa n) w
  unfolding handle_mica_update_with_xl
  reach_switch id key n w on_xen on solid nonempty =
      rw
        (
          parse_update_args_lem key (itoa n) solid (λ e. ground arith) (itoa-Solid n)
              (itoa-ne-nil n),
          on,
          on_xen,
          nonempty,
        )
        refl

  weight_command :
      (id : Bytes) (n : ℕ) (w : W)
      → xl_sched_credit2 host.xl id (forced_weight (pos n)) (pos 0) w
        ≡ host.xl
            (codes "sched-credit2"
              ∷ codes "-d"
              ∷ id
              ∷ codes "-w"
              ∷ itoa (if n == 0 then 256 else n)
              ∷ [])
            w
  unfolding xl_sched_credit2
  weight_command id n w = elim (Bool-cases (n == 0)) [
    | inl zero_weight ↦ rw zero_weight refl
    | inr other ↦ let there : ltb 0 n ≡ true = ground arith in rw other (rw there refl)
  ]

  capacity_command :
      (id : Bytes) (n : ℕ) (w : W)
      → xl_sched_credit2 host.xl id (pos 0) (pos n) w
        ≡ host.xl
            (codes "sched-credit2"
              ∷ codes "-d"
              ∷ id
              ∷ (if ltb 0 n then codes "-c" ∷ itoa n ∷ [] else []))
            w
  unfolding xl_sched_credit2
  capacity_command id n w = elim (Bool-cases (ltb 0 n)) [
    | inl there ↦ rw there refl
    | inr nothing ↦ rw nothing refl
  ]

  -- On Xen with the workaround on: a request for a number that fits an int runs the xl command of its kind
  -- with that number. A weight of 0 is replaced by 256, and a capacity of 0 is left out of the command.
  pub handle_mica_update_with_xl_lem :
      (id : Bytes) (n : ℕ) (w : W)
      → host.ped ≡ xen
      → xl_as_mica_update host.workaround ≡ true
      → n ≤ max_int
      → let asked =
          λ (key : Bytes). handle_mica_update_with_xl host id ((key ++ (b' ' ∷ itoa n)) ∷ []) w in
        let credit2 =
          λ (opts : List Bytes). host.xl (codes "sched-credit2" ∷ codes "-d" ∷ id ∷ opts) w in
        (asked (codes "Memory") ≡ host.xl (codes "mem-set" ∷ id ∷ itoa n ∷ []) w)
        × (asked (codes "MaxMem") ≡ host.xl (codes "mem-max" ∷ id ∷ itoa n ∷ []) w)
        × (asked (codes "VCPU") ≡ host.xl (codes "vcpu-set" ∷ id ∷ itoa n ∷ []) w)
        × (asked (codes "CPUWeight") ≡ credit2 (codes "-w" ∷ itoa (if n == 0 then 256 else n) ∷ []))
        × (asked (codes "CPUCpacity") ≡ credit2 (if ltb 0 n then codes "-c" ∷ itoa n ∷ [] else []))
  unfolding update_resource xl_mem_set xl_mem_max xl_vcpu_set
  handle_mica_update_with_xl_lem id n w on_xen on h =
      let read = atoi-itoa n h in
      (
        reach_switch id (codes "Memory") n w on_xen on (ground arith) refl ∙ rw read refl,
        reach_switch id (codes "MaxMem") n w on_xen on (ground arith) refl ∙ rw read refl,
        reach_switch id (codes "VCPU") n w on_xen on (ground arith) refl ∙ rw read refl,
        reach_switch id (codes "CPUWeight") n w on_xen on (ground arith) refl
            ∙ (rw read refl ∙ weight_command id n w),
        reach_switch id (codes "CPUCpacity") n w on_xen on (ground arith) refl
            ∙ (rw read refl ∙ capacity_command id n w),
      )
