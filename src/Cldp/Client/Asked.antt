-- ===== src/Cldp/Client/Asked.antt =====
-- What the words of the client's command line ask for (cldp_client.c with cldp_server.c).
use cn_assignments.Base.{
  ℕ, ◌≡◌, refl, sym, ap, subst, true, Bool-cases, inl, inr, some, Bytes, List, [], ◌∷◌, ◌++◌, map,
  take, codes, same_text, same_text-eq, arith,
}
use mathlib.Core.Option.{some-injective}
use cn_assignments.Cldp.{Metadata, Node, metadata_value}
use cn_assignments.Cldp.Client.{queried, command}
use cn_assignments.Cldp.Client.Values.{type_values}

abbrev pub host_name : ℕ × (Metadata → Bytes)
host_name = (1, λ m. take 255 m.hostname)

abbrev pub system_time : ℕ × (Metadata → Bytes)
system_time = (2, λ m. take 19 m.systime)

abbrev pub cpu_load : ℕ × (Metadata → Bytes)
cpu_load = (3, λ m. take 32 m.cpuload)

-- The commands, each with the types and the values that it asks for.
pub data Asks : List Bytes → List (ℕ × (Metadata → Bytes)) → Type 0 where
  for_hostname :
      (more : List Bytes) → Asks (codes "query" ∷ codes "hostname" ∷ more) (host_name ∷ [])
  for_systime :
      (more : List Bytes) → Asks (codes "query" ∷ codes "systime" ∷ more) (system_time ∷ [])
  for_cpuload : (more : List Bytes) → Asks (codes "query" ∷ codes "cpuload" ∷ more) (cpu_load ∷ [])
  for_all :
      (more : List Bytes)
      → Asks (codes "query" ∷ codes "all" ∷ more) (host_name ∷ system_time ∷ cpu_load ∷ [])

-- what is asked for, of each server in turn; `m addr t` is what the server at `addr` finds when it is
-- asked for type `t`
abbrev pub values : (ℕ → ℕ → Metadata) → List (ℕ × (Metadata → Bytes)) → List Node → List Bytes
values m [] nodes = []
values m (a ∷ asked) nodes =
    map (λ (n : Node). a.1 (m n.dest_addr a.0)) nodes ++ values m asked nodes

pub Asks-values :
    (m : ℕ → ℕ → Metadata) (args : List Bytes) (asked : List (ℕ × (Metadata → Bytes)))
    (nodes : List Node)
    → Asks args asked
    → type_values m (map (λ (a : ℕ × (Metadata → Bytes)). a.0) asked) nodes ≡ values m asked nodes
unfolding metadata_value
Asks-values m _ _ nodes (for_hostname more) = refl
Asks-values m _ _ nodes (for_systime more) = refl
Asks-values m _ _ nodes (for_cpuload more) = refl
Asks-values m _ _ nodes (for_all more) = refl

-- What a command asks for has the given types.
abbrev pub HasTypes : List Bytes → List ℕ → Type 0
HasTypes args types =
    (asked : List (ℕ × (Metadata → Bytes))) × Asks args asked
    × (map (λ (a : ℕ × (Metadata → Bytes)). a.0) asked ≡ types)

queried-HasTypes :
    (args : List Bytes) (types : List ℕ)
    → queried args ≡ some types
    → HasTypes (codes "query" ∷ args) types
unfolding queried
queried-HasTypes [] types h = absurd (cc)
queried-HasTypes (what ∷ more) types h =
    let found = λ (word : Bytes) (e : same_text what word ≡ true).
      sym (ap (λ (w : Bytes). codes "query" ∷ w ∷ more) (same_text-eq what word e)) in
    elim (Bool-cases (same_text what (codes "hostname"))) [
      | inl a ↦
          subst (λ args. HasTypes args types) (found _ a)
            (host_name ∷ [], for_hostname more, some-injective _ _ (ground arith))
      | inr b ↦ elim (Bool-cases (same_text what (codes "systime"))) [
        | inl a ↦
            subst (λ args. HasTypes args types) (found _ a)
              (system_time ∷ [], for_systime more, some-injective _ _ (ground arith))
        | inr c ↦ elim (Bool-cases (same_text what (codes "cpuload"))) [
          | inl a ↦
              subst (λ args. HasTypes args types) (found _ a)
                (cpu_load ∷ [], for_cpuload more, some-injective _ _ (ground arith))
          | inr d ↦ elim (Bool-cases (same_text what (codes "all"))) [
            | inl a ↦
                subst (λ args. HasTypes args types) (found _ a)
                  (
                    host_name ∷ system_time ∷ cpu_load ∷ [],
                    for_all more,
                    some-injective _ _ (ground arith),
                  )
            | inr e ↦ absurd (ground arith)
          ]
        ]
      ]
    ]

pub command-Asks :
    (args : List Bytes) (types : List ℕ) → command args ≡ some types → HasTypes args types
unfolding command
command-Asks [] types h = absurd (cc)
command-Asks (verb ∷ args) types h = elim (Bool-cases (same_text verb (codes "query"))) [
  | inl a ↦
      subst (λ (w : Bytes). HasTypes (w ∷ args) types) (sym (same_text-eq verb (codes "query") a))
        (queried-HasTypes args types (ground arith))
  | inr b ↦ absurd (ground arith)
]
