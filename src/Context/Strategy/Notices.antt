-- ===== src/Context/Strategy/Notices.antt =====
-- internal/agent/session/context/strategy.go: the texts of the warnings.
use tell_me_go.Base.{Bytes, codes, ◌++◌}

abbrev pub three_turns_remain : Bytes
three_turns_remain =
    codes "[SYSTEM NOTICE: You are approaching the operational turn limit (3 turns "
    ++ codes "remaining). Please begin finalizing your current task and use this turn to "
    ++ codes "perform any final state checks or file reads needed for your summary.]"

abbrev pub two_turns_remain : Bytes
two_turns_remain =
    codes "[URGENT SYSTEM NOTICE: Only 2 turns remain. You MUST now use 'manage_tasks' "
    ++ codes "to document the distilled state, or use 'manage_history' (pin) to pin "
    ++ codes "critical conversation turns to protect them from pruning. This ensures "
    ++ codes "context efficiency and continuity for the user in future sessions, as "
    ++ codes "conversation history may be pruned.]"

abbrev pub one_turn_remains : Bytes
one_turn_remains =
    codes "[FINAL SYSTEM WARNING: This is your absolute final turn. You are forbidden "
    ++ codes "from using any more tools. Provide a concise final conclusion or progress "
    ++ codes "summary to the user now. Execution will terminate immediately after this "
    ++ codes "response.]"

abbrev pub tokens_at_95 : Bytes
tokens_at_95 =
    codes "[CRITICAL SYSTEM NOTICE: Conversation history is at 95% capacity. Immediate "
    ++ codes "risk of session rollback. You must use 'manage_tasks' or 'manage_history' "
    ++ codes "(pin) to save a summary of your work and plans NOW. Keep your response "
    ++ codes "extremely brief.]"

abbrev pub tokens_at_90 : Bytes
tokens_at_90 =
    codes "[SYSTEM NOTICE: The conversation history is at 90% capacity. To avoid a "
    ++ codes "session crash, please minimize large file reads. Use 'manage_tasks' or "
    ++ codes "'manage_history' (pin) to preserve critical context and architectural notes "
    ++ codes "now, in case a rollback occurs.]"

abbrev pub cleanup_before : Bytes
cleanup_before =
    codes "[URGENT SYSTEM NOTICE: A major history cleanup has occurred. To maintain "
    ++ codes "performance and cache efficiency, the oldest "

abbrev pub cleanup_after : Bytes
cleanup_after =
    codes " turns of this conversation have been removed. You have lost significant "
    ++ codes "recent context. You MUST refer to 'manage_tasks' to continue unfinished tasks "
    ++ codes "and re-synchronize your internal state.]"

abbrev pub turns_at_95 : Bytes
turns_at_95 =
    codes "[URGENT SYSTEM NOTICE: Conversation history is at 95% of the turn limit. "
    ++ codes "Pruning is imminent. The oldest messages in this thread will be DELETED after "
    ++ codes "this turn. Move all essential long-term memory to the task list, or pinned "
    ++ codes "via 'manage_history' (pin) immediately.]"

abbrev pub turns_at_90 : Bytes
turns_at_90 =
    codes "[SYSTEM NOTICE: Conversation history is at 90% of the turn limit. To prevent "
    ++ codes "loss of context during upcoming pruning, ensure critical architectural "
    ++ codes "decisions and progress are documented in 'manage_tasks', or pinned via "
    ++ codes "'manage_history' (pin).]"

abbrev pub clogged : Bytes
clogged =
    codes "[CRITICAL SYSTEM NOTICE: A recent summarization failed to significantly "
    ++ codes "reduce context size. This is likely due to too many 'Pinned' turns or massive "
    ++ codes "active file buffers. You MUST unpin non-essential turns using "
    ++ codes "'manage_history' (unpin) or move architectural findings to 'manage_tasks' "
    ++ codes "immediately to avoid a session crash.]"
