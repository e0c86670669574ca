-- ===== src/Context/Manager/Scan.antt =====
-- internal/agent/session/context/manager.go: the search for the range of a summary that is asked for
-- (`SummarizeRange`). The history is read in windows from its start, each longer than the one before. The
-- store keeps its state during the search; what `GetWindow` answers of it is an argument.
pub mod Longest
pub mod Blocks
pub mod Ended
use tell_me_go.Base.{
  ℕ, zero, suc, ◌+◌, ◌-◌, ◌*◌, Bool, true, false, List, [], ◌∷◌, Option, none, some, length, take,
  drop, is_nil, last?, leb, ltb, if◌then◌else◌,
}
use tell_me_go.Errors.{Result, ok, err, Error, Ctx, poll, ◌>>=◌, ◌>>◌}
use tell_me_go.Context.{Message, Turn}
use tell_me_go.Context.Turns.{group_turns}
use tell_me_go.Context.Summary.{Selector}

-- `block` and `blockScanner`.
pub record ScanBlock : Type 0 where
  pub start_msg : ℕ
  pub end_msg : ℕ
  pub count : ℕ

pub record BlockScanner : Type 0 where
  pub current : Option ScanBlock
  pub best : Option ScanBlock
  pub msg_idx : ℕ

-- `startBlock`.
abbrev pub started : ℕ → Option ScanBlock → ScanBlock
started i none = record { start_msg = i; end_msg = 0; count = 0 }
started i (some b) = b

-- `extendBlock` behind `startBlock`: the block with a turn more.
abbrev pub extended : ℕ → BlockScanner → ScanBlock
extended turn_len bs = record {
  start_msg = (started bs.msg_idx bs.current).start_msg;
  end_msg = bs.msg_idx + turn_len;
  count = (started bs.msg_idx bs.current).count + 1;
}

-- The better of the best block and the current one.
abbrev pub promoted : Option ScanBlock → Option ScanBlock → Option ScanBlock
promoted none best = best
promoted (some b) none = some b
promoted (some b) (some best) = if ltb best.count b.count then some b else some best

-- `closeBlock` and `finalize`.
abbrev pub close_block : BlockScanner → BlockScanner
close_block bs = record bs { best = promoted bs.current bs.best; current = none }

abbrev pub finalize : BlockScanner → Option ScanBlock
finalize bs = promoted bs.current bs.best

-- The answer of `scanCandidateBlocks`: a block of enough turns, or the best of all.
pub data Scanned : Type 0 where
  ready : ScanBlock → Scanned
  best_of_all : Option ScanBlock → Scanned

-- The loop of `scanCandidateBlocks`.
unfoldable pub scan_loop : Selector → ℕ → List Turn → BlockScanner → Scanned
scan_loop sel num_turns [] bs = best_of_all (finalize bs)
scan_loop sel num_turns (t ∷ ts) bs =
    let b = extended (length t) bs in
    let more =
      scan_loop sel num_turns ts
        (record bs { current = some b; msg_idx = bs.msg_idx + length t }) in
    let closed =
      scan_loop sel num_turns ts (record (close_block bs) { msg_idx = bs.msg_idx + length t }) in
    if sel.is_candidate t then (if leb num_turns b.count then ready b else more) else closed

unfoldable pub scan_candidate_blocks : Selector → ℕ → List Turn → Scanned
scan_candidate_blocks sel num_turns turns =
    scan_loop sel num_turns turns (record { current = none; best = none; msg_idx = 0 })

-- The range `[start, stop)` of messages that is to be summarized; `none` where there is none.
abbrev pub MessageRange : Type 0
MessageRange = Option (ℕ × ℕ)

-- `capBestBlock`: the last turn of the block is left, where it has more than one.
abbrev pub last_length : Option Turn → ℕ
last_length none = 0
last_length (some t) = length t

abbrev pub capped : ScanBlock → List Turn → MessageRange
capped b turns =
    if ltb 1 (length turns)
    then some (b.start_msg, b.end_msg - last_length (last? turns))
    else some (b.start_msg, b.end_msg)

unfoldable pub cap_best_block : Ctx → List Message → ℕ → Option ScanBlock → Result MessageRange
cap_best_block ctx contents min_viable none = ok none
cap_best_block ctx contents min_viable (some b) =
    if ltb b.count min_viable
    then ok none
    else if ltb 0 (b.count - 1)
    then (do
      turns ← group_turns ctx (some (take (b.end_msg - b.start_msg) (drop b.start_msg contents)))
      ok (capped b turns))
    else ok (some (b.start_msg, b.end_msg))

-- `checkWindowSize`: the range that was found, or that the window is to grow.
pub data Checked : Type 0 where
  found : MessageRange → Checked
  expand : Checked

unfoldable pub checked_scan : Ctx → Selector → List Message → Bool → Scanned → Result Checked
checked_scan ctx sel contents at_end (ready b) = ok (found (some (b.start_msg, b.end_msg)))
checked_scan ctx sel contents true (best_of_all best) = do
  range ← cap_best_block ctx contents sel.min_viable_block best
  ok (found range)
checked_scan ctx sel contents false (best_of_all best) = ok expand

unfoldable pub check_window_size :
    Ctx → Selector → (ℕ → Result (List Message)) → ℕ → ℕ → ℕ → Result Checked
check_window_size ctx sel window size num_turns total = do
  contents ← window size
  turns ← group_turns ctx (some contents)
  checked_scan ctx sel contents (leb total size) (scan_candidate_blocks sel num_turns turns)

abbrev pub at_most : ℕ → ℕ → ℕ
at_most total size = if ltb total size then total else size

-- The loop of `findSummarizationBoundary`, on fuel; `none` where that is used up.
unfoldable pub after_check :
    (Unit {0} → Option (Result MessageRange)) → Result Checked → Option (Result MessageRange)
after_check next (err e) = some (err e)
after_check next (ok (found range)) = some (ok range)
after_check next (ok expand) = next tt

unfoldable pub unless_polled : Ctx → Option (Result MessageRange) → Option (Result MessageRange)
unless_polled none r = r
unless_polled (some e) r = some (err e)

unfoldable pub boundary_loop :
    ℕ → Ctx → Selector → (ℕ → Result (List Message)) → ℕ → ℕ → ℕ → Option (Result MessageRange)
boundary_loop zero ctx sel window num_turns total size = none
boundary_loop (suc fuel) ctx sel window num_turns total size = unless_polled ctx (
    after_check
      (λ u.
        boundary_loop fuel ctx sel window num_turns total (at_most total (size + num_turns * 2)))
      (check_window_size ctx sel window size num_turns total))

unfoldable pub find_summarization_boundary :
    ℕ → Ctx → Selector → (ℕ → Result (List Message)) → ℕ → ℕ → Option (Result MessageRange)
find_summarization_boundary fuel ctx sel window num_turns total =
    boundary_loop fuel ctx sel window num_turns total (at_most total (num_turns * 4))
