-- ===== src/Syscalls/Gates.antt =====
-- What the gates of the system calls let through: kernel/src/syscall.rs.
use morion_os.Prelude.{
  ℕ, ◌%◌, ◌<◌, ◌≡◌, ◌⊎◌, inl, inr, refl, subst, Bool, true, false, not, ◌&&◌, ◌||◌, none, some,
  List, length, set, get_or, get_or-set_self, get_or-set_ne, arith, dec_lt, ℕ_discrete, ltb, leb,
  ◌==◌, if◌then◌else◌, ==_self, ==_ne, lt→ltb, Bool-cases,
}
use morion_os.Cap.{Capability, irq, spawn}
use morion_os.Cap.Table.{has, holds}
use morion_os.Sched.Ops.{current_domain}
use morion_os.Irq.{register, register_vector}
use morion_os.Pager.{of}
use morion_os.Domains.{World, destroy, is_alive}
use morion_os.Domains.Ends.{destroy_living, destroy_dead}
use morion_os.Syscalls.{domain_destroy, register_irq, is_it}

stays : (b : Bool) → b ≡ (b && true)
stays true = refl
stays false = refl

get_or-set {ℓ} :
    {A : Type ℓ} (xs : List A) (i n : ℕ) (x z : A)
    → i < length xs
    → get_or (set xs i x) n z ≡ (if i == n then x else get_or xs n z)
get_or-set xs i n x z h = elim (ℕ_discrete i n) [
  | yes e ↦
      subst (λ m. get_or (set xs i x) m z ≡ (if i == m then x else get_or xs m z)) e
        (rw (==_self i) (get_or-set_self xs i x z h))
  | no d ↦ rw (==_ne i n d) (get_or-set_ne xs i n x z d)
]

-- What `SYS_DOMAIN_DESTROY` does to the living domains: the call of a domain that may make domains and
-- is the pager of the target ends the target if it is alive, and answers 1: then the target has no
-- capability any more, and every other domain lives as before with the capabilities that it held. Any
-- other call answers 0 and changes nothing.
pub domain_destroy_lem :
    (w : World) (from a1 e : ℕ) (c : Capability) (may : Bool)
    → current_domain w.sched ≡ some from
    → has w.caps from spawn ≡ some may
    → let ends = (may && is_it (of w.pagers a1) from) && is_alive w.domains a1 in
      (w' : World) × (domain_destroy w a1 ≡ some (w', if ends then 1 else 0))
      × ((ends ≡ true) ⊎ (w' ≡ w))
      × (is_alive w'.domains e ≡ is_alive w.domains e && not (ends && (a1 == e)))
      × (holds w'.caps e c ≡ holds w.caps e c && not (ends && (a1 == e)))
unfolding domain_destroy
domain_destroy_lem w from a1 e c false now gate =
    (w, rw (now, gate) refl, inr refl, stays (is_alive w.domains e), stays (holds w.caps e c))
domain_destroy_lem w from a1 e c true now gate = elim (Bool-cases (is_it (of w.pagers a1) from)) [
  | inr n ↦
      rw n (
        w,
        rw (now, gate, n) refl,
        inr refl,
        stays (is_alive w.domains e),
        stays (holds w.caps e c),
      )
  | inl y ↦ elim (Bool-cases (is_alive w.domains a1)) [
    | inr dead ↦
        rw (y, dead)
          (
            w,
            rw (now, gate, y, destroy_dead w a1 dead) refl,
            inr refl,
            stays (is_alive w.domains e),
            stays (holds w.caps e c),
          )
    | inl alive ↦
        let (done, place, held) = destroy_living w a1 e c alive in
        rw (y, alive) ((destroy w a1).0, rw (now, gate, y, done) refl, inl refl, place, held)
  ]
]

-- `SYS_REGISTER_IRQ` of a domain with the capability for the number writes the domain, and nothing
-- else, into one place: that of the line below 16, or that of the vector from 32 on. It answers 1 then.
-- Without the capability, and for 16 to 31, the numbers of the processor's exceptions, it answers 0,
-- and no place changes. The tables have their 16 lines and 256 vectors.
pub register_irq_lem :
    (w : World) (domain a1 n : ℕ) (may : Bool)
    → current_domain w.sched ≡ some domain
    → has w.caps domain (irq (a1 % 256)) ≡ some may
    → length w.irqs.handlers ≡ 16
    → length w.irqs.vectors ≡ 256
    → let line = may && ltb (a1 % 256) 16 in
      let vector = may && leb 32 (a1 % 256) in
      (w' : World) × (register_irq w a1 ≡ some (w', if line || vector then 1 else 0))
      × (get_or w'.irqs.handlers n none
          ≡ (if line && (a1 % 256 == n) then some domain else get_or w.irqs.handlers n none))
      × (get_or w'.irqs.vectors n none
          ≡ (if vector && (a1 % 256 == n) then some domain else get_or w.irqs.vectors n none))
      × (w' ≡ record w {
        irqs = record w.irqs { handlers = w'.irqs.handlers; vectors = w'.irqs.vectors };
      })
unfolding register_irq register register_vector
register_irq_lem w domain a1 n false now gate lines vectors =
    (w, rw (now, gate) refl, refl, refl, refl)
register_irq_lem w domain a1 n true now gate lines vectors =
    let v = a1 % 256 in
    elim (dec_lt v 16) [
      | yes pic ↦
          let low : ltb v 16 ≡ true = lt→ltb v 16 pic in
          let high : leb 32 v ≡ false = ground arith in
          rw (low, high)
            (
              record w { irqs = register w.irqs v domain },
              rw (now, gate) refl,
              get_or-set w.irqs.handlers v n (some domain) none (omega (arith, lines, pic)),
              refl,
              refl,
            )
      | no past ↦
          let low : ltb v 16 ≡ false = ground arith in
          elim (Bool-cases (leb 32 v)) [
            | inl high ↦
                rw (low, high)
                  (
                    record w { irqs = register_vector w.irqs v domain },
                    rw (now, gate) refl,
                    refl,
                    get_or-set w.irqs.vectors v n (some domain) none (omega (arith, vectors)),
                    refl,
                  )
            | inr high ↦ rw (low, high) (w, rw (now, gate) refl, refl, refl, refl)
          ]
    ]
