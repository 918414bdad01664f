-- ===== src/Engine/Stream/Voice.antt =====
-- What the caller of `complete_stream` of router/engine.py is sent.
use nexus_llm_router.Prelude.{
  ◌≡◌, inl, inr, refl, sym, ap, ◌∙◌, arith, eq_iff, String, true, false, Bool-cases, List, [], ◌∷◌,
  ◌++◌, str_eq,
}
use Prim.Native.String
use nexus_llm_router.Prelude.Choice.{All}
use nexus_llm_router.Engine.Stream.{Chunk, text, report, assembled, starts_output, yielded}

abbrev pub Sent : Type 0
Sent = List (String × String)

-- The text that the caller has, the pieces put together.
unfoldable pub heard : String → Sent → String
heard acc [] = acc
heard acc ((m, t) ∷ es) = heard (String.◌++◌ acc t) es

-- Pieces without text, and pieces of one model.
abbrev pub Blank : Sent → Type 0
Blank = All (λ e. e.1 ≡ "")

abbrev pub Of : String → Sent → Type 0
Of m = All (λ e. e.0 ≡ m)

-- All text that was sent is one model's.
abbrev pub OneVoice : Sent → Type 0
OneVoice es =
    (m : String) × (blanks : Sent) × (texts : Sent) × (es ≡ blanks ++ texts)
    × Blank blanks
    × Of m texts

pub heard-Blank : (es fs : Sent) → Blank es → heard "" (es ++ fs) ≡ heard "" fs
unfolding heard
heard-Blank [] fs h = refl
heard-Blank ((m, t) ∷ es) fs h = rw h.0 (heard-Blank es fs h.1)

pub heard-yielded :
    (m : String) (acc : String) (cs : List Chunk) → heard acc (yielded m cs) ≡ assembled acc cs
unfolding heard yielded assembled
heard-yielded m acc [] = refl
heard-yielded m acc (text t ∷ cs) = heard-yielded m (String.◌++◌ acc t) cs
heard-yielded m acc (report p ∷ cs) = heard-yielded m acc cs

pub yielded-Of : (m : String) (cs : List Chunk) → Of m (yielded m cs)
unfolding yielded
yielded-Of m [] = tt
yielded-Of m (text t ∷ cs) = (refl, yielded-Of m cs)
yielded-Of m (report p ∷ cs) = yielded-Of m cs

-- Once output has started the flag stays, and before that no text was sent.
starts_output-true : (cs : List Chunk) → starts_output true cs ≡ true
unfolding starts_output
starts_output-true [] = refl
starts_output-true (text t ∷ cs) = starts_output-true cs
starts_output-true (report p ∷ cs) = starts_output-true cs

pub silent-Blank :
    (m : String) (cs : List Chunk) → starts_output false cs ≡ false → Blank (yielded m cs)
unfolding starts_output yielded
silent-Blank m [] h = tt
silent-Blank m (text t ∷ cs) h = elim (Bool-cases (str_eq t "")) [
  | inl empty ↦
      let k : starts_output false cs ≡ false = simp empty at h in
      (ground (arith, empty, eq_iff t ""), silent-Blank m cs k)
  | inr full ↦
      let k : starts_output true cs ≡ false = simp full at h in
      let clash = sym (starts_output-true cs) ∙ k in cc
]
silent-Blank m (report p ∷ cs) h = silent-Blank m cs h

pub Blank-append : (es fs : Sent) → Blank es → Blank fs → Blank (es ++ fs)
Blank-append [] fs h k = k
Blank-append (e ∷ es) fs h k = (h.0, Blank-append es fs h.1 k)

pub append-nil : (es : Sent) → es ++ [] ≡ es
append-nil [] = refl
append-nil (e ∷ es) = ap (λ fs. e ∷ fs) (append-nil es)

pub Blank-OneVoice : (es : Sent) → Blank es → OneVoice es
Blank-OneVoice es h = ("", es, [], sym (append-nil es), h, tt)
