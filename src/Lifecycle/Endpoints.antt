-- ===== src/Lifecycle/Endpoints.antt =====
-- Katline/Arch/Scheduler.cppm: the endpoints of new processes.
use mathlib.Core.Path.{subst}
use dhos_reborn.Base.{
  ℕ, ◌+◌, ◌<◌, ◌≡◌, refl, ◌≢◌, true, false, List, [], ◌∷◌, ◌++◌, ◌==◌, if◌then◌else◌, contains,
  arith, ==_self, ==_false, ◌%◌, ◌^◌,
}
use dhos_reborn.Process.{Process}
use dhos_reborn.Scheduler.{Scheduler}
use dhos_reborn.Lifecycle.{create_process, new_process, process_by_endpoint}

abbrev with_process : ℕ → Process → (ℕ → Process) → ℕ → Process
with_process p created ps a = if a == p then created else ps a

-- The endpoints of the listed processes lie below a bound.
abbrev pub EndpointsBelow : ℕ → (ℕ → Process) → List ℕ → Type 0
EndpointsBelow n ps [] = Unit {0}
EndpointsBelow n ps (p ∷ list) = ((ps p).endpoint_id < n) × EndpointsBelow n ps list

find-new :
    (p : ℕ) (created : Process) (ps : ℕ → Process) (list : List ℕ)
    → EndpointsBelow created.endpoint_id ps list
    → contains p list ≡ false
    → process_by_endpoint created.endpoint_id (with_process p created ps) (list ++ p ∷ []) ≡ p
unfolding process_by_endpoint
find-new p created ps [] h f = rw (==_self p, ==_self created.endpoint_id) refl
find-new p created ps (q ∷ list) h f =
    let ne : (q == p) ≡ false = ground arith in
    let e : ((ps q).endpoint_id == created.endpoint_id) ≡ false = let l = h.0 in ground arith in
    rw (ne, e) (find-new p created ps list h.1 (ground arith))

find-old :
    (e p : ℕ) (created : Process) (ps : ℕ → Process) (list : List ℕ)
    → created.endpoint_id ≢ e
    → contains p list ≡ false
    → process_by_endpoint e (with_process p created ps) (list ++ p ∷ [])
      ≡ process_by_endpoint e ps list
unfolding process_by_endpoint
find-old e p created ps [] ne f = rw (==_self p, ==_false ne) refl
find-old e p created ps (q ∷ list) ne f =
    let other : (q == p) ≡ false = ground arith in
    let rest = find-old e p created ps list ne (ground arith) in rw (other, rest) refl

below-new :
    (p : ℕ) (created : Process) (ps : ℕ → Process) (list : List ℕ)
    → EndpointsBelow created.endpoint_id ps list
    → contains p list ≡ false
    → EndpointsBelow (created.endpoint_id + 1) (with_process p created ps) (list ++ p ∷ [])
below-new p created ps [] h f = (rw (==_self p) (omega arith), tt)
below-new p created ps (q ∷ list) h f =
    let other : (q == p) ≡ false = ground arith in
    (rw other (omega (arith, h.0)), below-new p created ps list h.1 (ground arith))

-- A new process is found by its endpoint, every other endpoint stands for the process that it stood
-- for, and the endpoints of all processes stay below the counter. Before, they lie below it, and the
-- address of the new process is not in the list; the counter does not wrap.
pub create_process-endpoint :
    (p parent cr3 : ℕ) (s : Scheduler)
    → EndpointsBelow s.endpoint_counter s.processes s.process_list
    → contains p s.process_list ≡ false
    → s.endpoint_counter + 1 < 2 ^ 64
    → let s' = (create_process p true parent cr3 s).1 in
      (process_by_endpoint s.endpoint_counter s'.processes s'.process_list ≡ p)
      × ((e : ℕ)
          → s.endpoint_counter ≢ e
          → process_by_endpoint e s'.processes s'.process_list
            ≡ process_by_endpoint e s.processes s.process_list)
      × EndpointsBelow s'.endpoint_counter s'.processes s'.process_list
unfolding create_process
create_process-endpoint p parent cr3 s h f small =
    let created : Process =
      new_process parent ((s.pid_counter + 1) % 2 ^ 64) s.endpoint_counter cr3 in
    let same : s.endpoint_counter + 1 ≡ (s.endpoint_counter + 1) % 2 ^ 64 = omega arith in
    (
      find-new p created s.processes s.process_list h f,
      λ e ne. find-old e p created s.processes s.process_list ne f,
      subst (λ n. EndpointsBelow n (with_process p created s.processes) (s.process_list ++ p ∷ []))
          same (below-new p created s.processes s.process_list h f),
    )
