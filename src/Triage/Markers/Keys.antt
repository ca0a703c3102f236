-- ===== src/Triage/Markers/Keys.antt =====
-- The keys of src/triage/thread-markers.ts: no two kinds share one, nor do two threads.
use text.Mathlib.TextPositions.{slice-append_left}
use text.Mathlib.TextLemmas.{append_assoc, append_cancel_left}
use Prim.Native.String
use agent_orchestrator.Base.{String, ◌≡◌, ◌≢◌, refl, sym, ap, ◌∙◌, str_eq, if◌then◌else◌}
use agent_orchestrator.Triage.Markers.{
  MarkerKind, draft_edit, draft_revise, schedule, ask_founder, marker_key_prefix, marker_key,
}

-- The first seven bytes of a key, and the rest of its prefix.
abbrev head : MarkerKind → String
head draft_edit = "draft_e"
head draft_revise = "draft_r"
head schedule = "schedul"
head ask_founder = "ask_fou"

slice-key : (k : MarkerKind) (t : String) → String.slice (marker_key k t) 0 7 ≡ head k
unfolding marker_key marker_key_prefix
slice-key draft_edit t =
    ap (λ s. String.slice s 0 7) (append_assoc "draft_e" "dit_pending" (String.◌++◌ ":" t))
    ∙ slice-append_left "draft_e" (String.◌++◌ "dit_pending" (String.◌++◌ ":" t))
slice-key draft_revise t =
    ap (λ s. String.slice s 0 7) (append_assoc "draft_r" "evise_pending" (String.◌++◌ ":" t))
    ∙ slice-append_left "draft_r" (String.◌++◌ "evise_pending" (String.◌++◌ ":" t))
slice-key schedule t =
    ap (λ s. String.slice s 0 7) (append_assoc "schedul" "e_pending" (String.◌++◌ ":" t))
    ∙ slice-append_left "schedul" (String.◌++◌ "e_pending" (String.◌++◌ ":" t))
slice-key ask_founder t =
    ap (λ s. String.slice s 0 7) (append_assoc "ask_fou" "nder_pending" (String.◌++◌ ":" t))
    ∙ slice-append_left "ask_fou" (String.◌++◌ "nder_pending" (String.◌++◌ ":" t))

kind_of_head : String → MarkerKind
kind_of_head s =
    if str_eq s "draft_e"
    then draft_edit
    else (if str_eq s "draft_r"
        then draft_revise
        else (if str_eq s "schedul" then schedule else ask_founder))

kind_of_head-head : (k : MarkerKind) → kind_of_head (head k) ≡ k
unfolding kind_of_head
kind_of_head-head draft_edit = refl
kind_of_head-head draft_revise = refl
kind_of_head-head schedule = refl
kind_of_head-head ask_founder = refl

pub key-kind : (k j : MarkerKind) (t u : String) → marker_key k t ≡ marker_key j u → k ≡ j
key-kind k j t u e =
    sym (kind_of_head-head k)
    ∙ ap kind_of_head (sym (slice-key k t) ∙ ap (λ s. String.slice s 0 7) e ∙ slice-key j u)
    ∙ kind_of_head-head j

pub key-thread : (k : MarkerKind) (t u : String) → marker_key k t ≡ marker_key k u → t ≡ u
unfolding marker_key
key-thread k t u e =
    append_cancel_left ":" t u
      (append_cancel_left (marker_key_prefix k) (String.◌++◌ ":" t) (String.◌++◌ ":" u) e)

pub key-apart : (k j : MarkerKind) (u t : String) → u ≢ t → marker_key k u ≢ marker_key j t
key-apart k j u t ne e =
    let same : k ≡ j = key-kind k j u t e in
    ne (key-thread k u t (e ∙ ap (λ i. marker_key i t) (sym same)))
