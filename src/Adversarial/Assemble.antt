-- ===== src/Adversarial/Assemble.antt =====
-- `assemble_record` of harness/adversarial.py: the text of a decision record.
use harnessie.Prelude.{
  String, ◌<>◌, List, [], ◌∷◌, ◌++◌, if◌then◌else◌, map, codes, starts_with, splitlines,
}
use harnessie.Adversarial.Stances.{PositionRecord, Objection}
use harnessie.Adversarial.Lint.{Text, strip, lstrip, rstrip, is_none_left}

-- What an assembly is given. `quoted` are JSON strings; `ref` is the generated reference and `date` the day.
pub record Assembly : Type 0 where
  pub record_id : String
  pub ref : String
  pub title : String
  pub quoted_title : String
  pub date : String
  pub quoted_arbiter : String
  pub context : String
  pub question : String
  pub evidence : List String

abbrev fence_line : Text → Text
fence_line l = if starts_with (lstrip l) (codes "#") then codes "> " ++ l else l

-- `"\n".join(lines)`
abbrev join_lines : List Text → Text
join_lines [] = []
join_lines (l ∷ []) = l
join_lines (l ∷ k ∷ ls) = l ++ (10 ∷ join_lines (k ∷ ls))

-- `_fence_prose`
unfoldable pub fence_prose : Text → Text
fence_prose prose = join_lines (map fence_line (splitlines prose))

abbrev or_no_prose : Text → Text
or_no_prose s = if is_none_left s then codes "(no prose)" else s

unfoldable pub position_lines : List PositionRecord → List Text
position_lines [] = []
position_lines (p ∷ ps) =
    codes ("### Position: " <> p.label)
    ∷ []
    ∷ codes ("- agent: " <> p.agent)
    ∷ codes ("- model: " <> p.model_id)
    ∷ codes ("- provider: " <> p.provider)
    ∷ codes ("- stance: " <> p.stance)
    ∷ codes ("- summary: " <> p.summary)
    ∷ []
    ∷ or_no_prose (fence_prose (strip (codes p.prose)))
    ∷ []
    ∷ position_lines ps

unfoldable pub objection_lines : List Objection → List Text
objection_lines [] = []
objection_lines (o ∷ os) =
    codes ("### Objection: " <> (o.by <> " to the record"))
    ∷ []
    ∷ fence_prose (strip (codes o.text))
    ∷ []
    ∷ objection_lines os

unfoldable pub head_lines : Assembly → List Text
head_lines a =
    codes "---"
    ∷ codes ("id: " <> a.record_id)
    ∷ codes ("ref: DR-" <> a.ref)
    ∷ codes ("title: " <> a.quoted_title)
    ∷ codes "status: open"
    ∷ codes ("date: " <> a.date)
    ∷ codes ("arbiter: " <> a.quoted_arbiter)
    ∷ codes "tags: [harnessie, contested-phase]"
    ∷ codes "---"
    ∷ codes ("# " <> (a.record_id <> (": " <> a.title)))
    ∷ []
    ∷ codes "## Context"
    ∷ []
    ∷ strip (codes a.context)
    ∷ []
    ∷ codes
        "Independence statement: positions were generated in isolated model contexts with read-only tool grants within one harness process; isolation is code-enforced for context and tools, behavioral for everything a shared filesystem could leak. The hash-chained events log is the evidence it held."
    ∷ []
    ∷ codes "## Question"
    ∷ []
    ∷ strip (codes a.question)
    ∷ []
    ∷ codes "## Positions"
    ∷ []
    ∷ []

-- `assemble_record`
unfoldable pub assemble_record : Assembly → List PositionRecord → List Objection → Text
assemble_record a positions objections =
    rstrip (
      join_lines (
        head_lines a
        ++ (position_lines positions
            ++ ((codes "## Objections" ∷ [] ∷ [])
                ++ (objection_lines objections
                    ++ ((codes "## Arbitration" ∷ [] ∷ codes "## Evidence" ∷ [] ∷ [])
                        ++ map (λ e. codes ("- " <> e)) a.evidence))))))
    ++ 10 ∷ []
