-- ===== src/Session/Flows.antt =====
-- Statements about every way in which a handler or a turn of the loop can end.
use nexus_ftp_engine.Session.{Flow, next, leave, raised, out_of_fuel}

-- The predicate holds of the state that the flow carries, if it carries one.
abbrev pub FlowAll {ℓ} : {S : Type 0} → (S → Type ℓ) → Flow S → Type ℓ
FlowAll P (next s) = P s
FlowAll P (leave s) = P s
FlowAll P (raised s) = P s
FlowAll P Flow.undefined = Unit
FlowAll P out_of_fuel = Unit

pub FlowAll-map {ℓ κ} :
    {S : Type 0} (P : S → Type ℓ) {Q : S → Type κ} (f : Flow S)
    → ((s : S) → P s → Q s)
    → FlowAll P f
    → FlowAll Q f
FlowAll-map P (next s) g p = g s p
FlowAll-map P (leave s) g p = g s p
FlowAll-map P (raised s) g p = g s p
FlowAll-map P Flow.undefined g p = tt
FlowAll-map P out_of_fuel g p = tt

pub FlowAll-both {ℓ κ} :
    {S : Type 0} (P : S → Type ℓ) (Q : S → Type κ) (f : Flow S)
    → FlowAll P f
    → FlowAll Q f
    → FlowAll (λ s. P s × Q s) f
FlowAll-both P Q (next s) p q = (p, q)
FlowAll-both P Q (leave s) p q = (p, q)
FlowAll-both P Q (raised s) p q = (p, q)
FlowAll-both P Q Flow.undefined p q = tt
FlowAll-both P Q out_of_fuel p q = tt
