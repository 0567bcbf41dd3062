-- ===== src/Lib.antt =====
-- Verification of libtealet: stack-switching coroutines (tealets) in C.
--
-- A tealet is a piece of the C stack. While it does not run, the bytes of its stack that others
-- may overwrite are saved on the heap, in a chain of chunks, and no more of them than needed: the
-- list `g_prev` holds the stacks that are saved in part, and each transfer of control saves as much
-- more as the target's stack will cover.
--
-- The parts of src/tealet.c and the files that model them:
--   * Platform: what comes from stackman (the STACKMAN_SP_* macros) and from the compiler (sizes),
--     as a parameter, for a stack that grows downwards.
--   * Memory: the memory of the C stack and memcpy.
--   * Domain: tealet_chunk_t, tealet_stack_t, tealet_sub_t, tealet_integrity_data_t and
--     tealet_main_t. A heap is a function from addresses; the list `g_prev` and the circular list
--     are lists of addresses. The answers of the allocator and of mprotect are lists in the state.
--   * Stats: STATS_ADD_ALLOC, STATS_SUB_ALLOC, the counters and tealet_int_malloc.
--   * Stack: tealet_stack_new, _grow, _restore, _dup, _link, _unlink, _decref, _defunct and
--     tealet_is_defunct. Stack/Image has what a saved stack gives back.
--   * Growth: tealet_stack_saveto, _growto and _grow_list. Growth/Bands has the staircase of
--     unsaved bands, Growth/Step and Growth/New the cases of one stack, Growth/Walked and
--     Growth/Walk the walk along the list.
--   * Integrity: tealet_integrity_plan_for_current, the page guards, the snapshots.
--   * Config: tealet_config_canonicalize and the snapshot workspace. Config/Request:
--     tealet_configure_get, _set and _check_stack, with tealet_config_t as a structure of which a
--     prefix is copied. Config/Canonical, Config/Copy, Config/Set and
--     Config/Plan have the theorems.
--   * Transfer: tealet_save_state, tealet_restore_state, tealet_save_restore_cb,
--     tealet_check_caller_is_current, tealet_switchstack. stackman_switch is a parameter.
--     Transfer/Invariant has the invariant of the saved stacks, Transfer/Save and
--     Transfer/Suspend the saving, Transfer/Resume the copying back, Transfer/Switch the whole,
--     Transfer/Leave and Transfer/Left a tealet that exits,
--     Transfer/Run what happens between two transfers.
--   * Api: tealet_new, _duplicate, _delete, _switch, _exit, _status and their like. Api/Setup:
--     tealet_initialize, _finalize, the locking and the debug hooks. Api/Start: tealet_run, _fork
--     and tealet_initialstub. Api/Finish: its implicit exit. Api/Query: the accessors.
--   * Extras: the counting allocator, tealet_spawn and tealet_stub_new of src/tealet_extras.c.
--   * Report: tealet_get_stats.
--   * System: the whole domain between two calls. `IsSound` is its invariant, System/Count and
--     System/Erase count the holders of a stack, System/Guards, System/Flags, System/Alike and
--     System/Base say what leaves it alone, System/Switched, System/Outcome and System/Transfer
--     are about tealet_switchstack and System/Call about tealet_switch, System/Joined,
--     System/Enrol, System/Removed, System/Delete and System/Others about tealet_new, _duplicate
--     and _delete. System/Step has
--     the steps of a domain's life and System/Kept what they leave of a suspended tealet,
--     System/Return a tealet that is left and run again, System/Birth a new domain,
--     System/Panicked a panic that comes to a tealet made for later, System/Capture,
--     System/Started and System/Later a start for later.
--     An exit: System/Left after it took place, System/Steady, System/Exiting and System/Replaced
--     what else it comes to, System/Exit and System/Exited tealet_switchstack, System/Quit
--     tealet_xfer_inner, System/Nofail and System/Leaver tealet_exit, System/Implicit the one of a
--     function that returns; System/Arrive a transfer that memory cannot hold up.
--   * Links: the pointers of the lists. Links/Circle: TEALET_LIST_ADD and TEALET_LIST_REMOVE,
--     Links/Tealets: the circular list of a domain and the loop of tealet_get_stats,
--     Links/Unsaved: tealet_stack_link and tealet_stack_unlink.
--   * Examples: concrete states.
--
-- The invariant (`Sliced`): every stack in use is a chain of chunks that lie end to end; the stacks
-- in `g_prev` are partial, and each is saved at least to where the one before it ends; all others
-- are saved to their far end; every tealet that has a stack holds one with its own far boundary.
--
-- The model is of a release build (asserts do nothing) with statistics, snapshots and guards by
-- mprotect. The loops are recursion on the list of stacks, on a chain of chunks or on a number of
-- bytes; the walk along the pointers of the circular list runs on fuel, of which one round for each
-- tealet is enough.
--
-- A distance between two stack positions is an integer (`IsDescending`). The code asserts that
-- tealet_stack_saveto and tealet_stack_growto never measure one to STACKMAN_SP_FURTHEST, where a
-- ptrdiff_t turns negative; a domain in which only the main tealet has no far boundary, and shares
-- its stack with nobody, never does. NULL as the target of tealet_switch and tealet_exit is a
-- tealet that was not started; where a function returns NULL the process ends.
--
-- Not modelled: the function that a tealet runs once tealet_initialstub has entered it,
-- tealet_stub_run, which passes a block on the heap to another frame, tealet_main_userpointer and
-- tealet_free, the assembly of stackman, and the ascending stack, whose branches no build selects.
pub mod Base
pub mod Platform
pub mod Memory
pub mod Domain
pub mod Stats
pub mod Stack
pub mod Growth
pub mod Integrity
pub mod Config
pub mod Transfer
pub mod Links
pub mod Report
pub mod System
pub mod Extras
pub mod Examples
pub mod Api
