-- ===== src/Server/SingleFlight.antt =====
-- An action runs once: crates/bellows-server/src/main.rs, `execute`.
use bellows.Prelude.{
  ℕ, ◌≡◌, ◌⊎◌, refl, ap, ◌∙◌, subst, Bool, true, none, some, List, [], inl, inr, Bool-cases,
  Option-cases,
}
use bellows.Prelude.Key.{text_key}
use bellows.Prelude.Sort.{sort_by}
use bellows.Prelude.Text.{Text, is_empty}
use bellows.Store.Error.{ok}
use bellows.Store.Records.{Artifact, DeclaredActionRecord}
use bellows.Store.Contents
use bellows.Store.Normalizer.{normalize_bytes}
use bellows.Store.Contents.{Host, Store, read_declared}
use bellows.Store.Published.{Result-cases}
use bellows.Store.Declarations.{read_declared-put_declared}
use bellows.Server.Api.{answered}
use bellows.Server.Complete.{ApiResult-cases}
use bellows.Server.Collect.{collect_outputs, artifact_le, dedup}
use bellows.Server.Execution.{
  ExecuteRequest, Ran, failed, finished, record_of, inputs_there, sandbox, publish_run,
  execute_declared, check_execution, hit, miss, execution_answer, execute_locked, execute,
}

-- A read of the key finds a record that is this one, or counts as the same.
abbrev Found : Host → Text → Store → DeclaredActionRecord → Type 0
Found host key s d =
    (e : DeclaredActionRecord) × (read_declared host key s ≡ (s, ok (some e)))
    × ((e ≡ d) ⊎ (host.same_record e d ≡ true))

either_same :
    (host : Host) (e d : DeclaredActionRecord) (P : Type 0)
    → (e ≡ d) ⊎ ((host.same_record e d ≡ true) × P)
    → (e ≡ d) ⊎ (host.same_record e d ≡ true)
either_same host e d P (inl p) = inl p
either_same host e d P (inr (p, q)) = inr p

put-Found :
    (host : Host) (new : DeclaredActionRecord) (s : Store) (created : Bool)
    → (Contents.put_declared host new s).1 ≡ ok created
    → Found host new.key (Contents.put_declared host new s).0 new
put-Found host new s created h =
    let (e, r, same') = read_declared-put_declared host new s created h in
    (e, r, either_same host e new _ same')

publish_run-Found :
    (host : Host) (now : ℕ) (r : ExecuteRequest) (collected : List Artifact) (stdout stderr : Text)
    (duration_ms : ℕ) (executor : Text) (s : Store) (d : DeclaredActionRecord)
    → (publish_run host now r collected stdout stderr duration_ms executor s).1 ≡ some d
    → Found host r.key (publish_run host now r collected stdout stderr duration_ms executor s).0 d
unfolding publish_run record_of
publish_run-Found host now r collected stdout stderr duration_ms executor s d h =
    let first = Contents.put_blob host (host.digest_bytes stdout) stdout now s in
    let second = Contents.put_blob host (host.digest_bytes stderr) stderr now first.0 in
    let outputs = dedup (sort_by artifact_le collected) in
    let new = record_of host now r outputs stdout stderr duration_ms executor in
    elim (Bool-cases (is_empty outputs)) [
      | inl q ↦ let k = rw (q, publish_run) at h in absurd (cc)
      | inr q ↦
          let k1 = rw (q, publish_run) at h in
          elim (Result-cases first.1) [
            | inl (e, a) ↦ let k = rw (a, publish_run) at k1 in absurd (cc)
            | inr (a', a) ↦
                let k2 = rw (a, publish_run) at k1 in
                elim (Result-cases second.1) [
                  | inl (e, b) ↦ let k = rw (b, publish_run) at k2 in absurd (cc)
                  | inr (b', b) ↦
                      let k3 = rw (b, publish_run) at k2 in
                      elim (Result-cases (Contents.put_declared host new second.0).1) [
                        | inl (e, c) ↦ let k = rw (c, publish_run) at k3 in absurd (cc)
                        | inr (c', c) ↦
                            let k4 = rw (c, publish_run) at k3 in
                            let same' : new ≡ d = cc in
                            let t = (Contents.put_declared host new second.0).0 in
                            let there =
                              subst (Found host r.key t) same' (put-Found host new second.0 c' c) in
                            rw (q, publish_run)
                              (rw (a, publish_run)
                                (rw (b, publish_run) (rw (c, publish_run) there)))
                      ]
                ]
          ]
    ]

execute_declared-Found :
    (host : Host) (now : ℕ) (r : ExecuteRequest) (ran : Ran) (s : Store) (d : DeclaredActionRecord)
    → (execute_declared host now r ran s).1 ≡ some d
    → Found host r.key (execute_declared host now r ran s).0 d
unfolding execute_declared
execute_declared-Found host now r failed s d h = cc
execute_declared-Found host now r (finished workspace tree stdout stderr ms executor) s d h =
    let collected = collect_outputs host now tree r.outputs s [] in
    elim (Bool-cases (inputs_there host s r.inputs)) [
      | inr q ↦ let k = rw (q, execute_declared) at h in absurd (cc)
      | inl q ↦
          let k1 = rw (q, execute_declared) at h in
          elim (Option-cases collected.1) [
            | inl c ↦ let k = rw (c, execute_declared) at k1 in absurd (cc)
            | inr (outputs, c) ↦
                let k2 = rw (c, execute_declared) at k1 in
                rw (q, execute_declared)
                  (rw (c, execute_declared)
                    (publish_run-Found host now r outputs
                      (normalize_bytes stdout (sandbox workspace))
                      (normalize_bytes stderr (sandbox workspace)) ms executor collected.0 d k2))
          ]
    ]

execute_locked-Found :
    (host : Host) (now : ℕ) (r : ExecuteRequest) (ran : Ran) (s : Store) (d : DeclaredActionRecord)
    → (execute_locked host now r ran s).1 ≡ answered (miss d)
    → Found host r.key (execute_locked host now r ran s).0 d
unfolding execute_locked
execute_locked-Found host now r ran s d h =
    let found = read_declared host r.key s in
    elim (Result-cases found.1) [
      | inl (e, f) ↦ let k = rw (f, execute_locked) at h in absurd (cc)
      | inr (some e, f) ↦ let k = rw (f, execute_locked) at h in absurd (cc)
      | inr (none, f) ↦
          let k = rw (f, execute_locked) at h in
          let done = execute_declared host now r ran found.0 in
          elim (Option-cases done.1) [
            | inl g ↦ let k2 = rw (g, execution_answer) at k in absurd (cc)
            | inr (e, g) ↦
                let k2 = rw (g, execution_answer) at k in
                let same' : e ≡ d = cc in
                let g' : done.1 ≡ some d = rw (← same') g in
                rw (f, execute_locked) (execute_declared-Found host now r ran found.0 d g')
          ]
    ]

-- Past the guards, which look at the request only.
execute-locked :
    (host : Host) (enabled here : Bool) (now : ℕ) (r : ExecuteRequest) (ran : Ran) (s : Store)
    {u : Unit {0}}
    → check_execution host enabled here r ≡ answered u
    → execute host enabled here now r ran s ≡ execute_locked host now r ran s
unfolding execute
execute-locked host enabled here now r ran s k = rw (k, execute) refl

execute_locked-hit :
    (host : Host) (now : ℕ) (r : ExecuteRequest) (ran : Ran) (t : Store) (e : DeclaredActionRecord)
    → read_declared host r.key t ≡ (t, ok (some e))
    → execute_locked host now r ran t ≡ (t, answered (hit e))
unfolding execute_locked
execute_locked-hit host now r ran t e f =
    rw (ap (λ z. z.1) f, execute_locked) (ap (λ z. (z.0, answered (hit e))) f)

-- When the server has run an action and answered with its record, the same request again is
-- answered from the store, whatever the command would do, with that record or one that
-- counts as the same, and the store stays as it is.
pub execute-execute :
    (host : Host) (enabled here : Bool) (now later : ℕ) (r : ExecuteRequest) (ran again : Ran)
    (s : Store) (d : DeclaredActionRecord)
    → (execute host enabled here now r ran s).1 ≡ answered (miss d)
    → let after = (execute host enabled here now r ran s).0 in
      (e : DeclaredActionRecord) × (execute host enabled here later r again after
        ≡ (after, answered (hit e)))
      × ((e ≡ d) ⊎ (host.same_record e d ≡ true))
unfolding execute
execute-execute host enabled here now later r ran again s d h =
    elim (ApiResult-cases (check_execution host enabled here r)) [
      | inl (why, k) ↦ let k2 = rw (k, execute) at h in absurd (cc)
      | inr (u, k) ↦
          let first = execute-locked host enabled here now r ran s k in
          let t = (execute_locked host now r ran s).0 in
          let second = execute-locked host enabled here later r again t k in
          let (e, f, same') = execute_locked-Found host now r ran s d (rw first at h) in
          rw first (e, second ∙ execute_locked-hit host later r again t e f, same')
    ]
