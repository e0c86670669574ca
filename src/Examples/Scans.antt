-- ===== src/Examples/Scans.antt =====
-- The search for the range of a summary in a short history.
use tell_me_go.Base.{◌≡◌, List, [], ◌∷◌, none, some, take, true, arith}
use tell_me_go.Errors.{Result, ok}
use tell_me_go.Context.{Message, Turn}
use tell_me_go.Context.Summary.{contiguous_unpinned}
use tell_me_go.Context.Manager.Scan.{
  MessageRange, scan_candidate_blocks, find_summarization_boundary,
}
use tell_me_go.Context.Manager.Scan.Longest.{IsLongest}
use tell_me_go.Context.Manager.Scan.Blocks.{IsFound, scan_candidate_blocks-IsScan}
use tell_me_go.Context.Manager.Scan.Ended.{find_summarization_boundary_total}
use tell_me_go.Examples.Messages.{question, reply}

abbrev session : List Message
session = some question ∷ some reply ∷ some question ∷ some reply ∷ []

-- The first turn is pinned.
abbrev turns : List Turn
turns =
    (record question { pinned = true } ∷ reply ∷ [])
    ∷ (question ∷ reply ∷ [])
    ∷ (question ∷ reply ∷ [])
    ∷ []

scan_candidate_blocks-IsScan_example :
    IsFound contiguous_unpinned 3 turns (scan_candidate_blocks contiguous_unpinned 3 turns)
    × IsLongest contiguous_unpinned turns (scan_candidate_blocks contiguous_unpinned 3 turns)
scan_candidate_blocks-IsScan_example = scan_candidate_blocks-IsScan contiguous_unpinned 3 turns

find_summarization_boundary_total_example :
    (range : Result MessageRange) × (find_summarization_boundary 5 none contiguous_unpinned
        (λ n. ok (take n session))
        1
        4
      ≡ some range)
find_summarization_boundary_total_example =
    find_summarization_boundary_total none contiguous_unpinned (λ n. ok (take n session)) 1 4
      (omega arith)
