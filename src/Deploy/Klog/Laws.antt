-- ===== src/Deploy/Klog/Laws.antt =====
-- What the time of day that kubectl's log begins with says of the delay before it.
use nf_orchestrator.Prelude.{ℕ, ◌+◌, ◌%◌, ◌≡◌, ◌<◌, arith}
use nf_orchestrator.Deploy.Klog.{half_day, day, fold_midnight}

-- The first line's stamp measures a delay of less than half a day exactly, also where midnight lies
-- between the spawn and the line.
pub fold_midnight-exact :
    (at delay : ℕ) → delay < half_day → fold_midnight ((at + delay) % day) (at % day) ≡ delay
unfolding fold_midnight
fold_midnight-exact at delay short = ground arith

-- A stamp that lies before the spawn, by less than half a day, measures no delay.
fold_midnight-behind :
    (at behind : ℕ) → behind < half_day → fold_midnight (at % day) ((at + behind) % day) ≡ 0
unfolding fold_midnight
fold_midnight-behind at behind short = ground arith
