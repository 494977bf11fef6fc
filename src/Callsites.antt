-- ===== src/Callsites.antt =====
-- The call-site records of mpiP-callsites.h and the first part of mpiP-callsites.c. A `double` is a
-- natural number of a fixed unit (a microsecond, its square, a byte), since the values are never
-- negative; an `int` id is a natural number; the asserts that a sum is not negative then hold.
pub mod Replay
pub mod Keys
use a_mpi_p.Prelude.{
  ℕ, zero, suc, ◌+◌, ◌-◌, ◌*◌, ◌^◌, min, max, Bool, Option, none, List, [], ◌∷◌, ◌&&◌, ℤ, pos,
  negsuc, ltb_ℤ, leb_ℤ, to_nat, replicate,
}

-- a C string, by its bytes up to the terminator
abbrev pub Text : Type 0
Text = List ℕ

-- DBL_MAX
pub dbl_max : ℕ
dbl_max = (2 ^ 53 - 1) * 2 ^ 971

-- MPIP_CALLSITE_STATS_COOKIE
abbrev pub stats_cookie : ℕ
stats_cookie = 518641

-- `callsite_stats_t`
pub record CallsiteStats : Type 0 where
  pub op : ℕ
  pub rank : ℕ
  pub csid : ℕ
  pub tmpid : ℕ
  pub count : ℕ
  pub cumulative_time : ℕ
  pub cumulative_time_squared : ℕ
  pub max_dur : ℕ
  pub min_dur : ℕ
  pub max_data_sent : ℕ
  pub min_data_sent : ℕ
  pub max_io : ℕ
  pub min_io : ℕ
  pub max_rma : ℕ
  pub min_rma : ℕ
  pub cumulative_data_sent : ℕ
  pub cumulative_io : ℕ
  pub cumulative_rma : ℕ
  pub arbitrary_message_count : ℕ
  pub site_data : List ℕ
  pub site_data_idx : ℕ
  pub pc : List ℕ
  pub filename : List (Option Text)
  pub functname : List (Option Text)
  pub lineno : List ℕ
  pub cookie : ℕ

-- a record after `bzero`, with stack arrays of `n` entries
unfoldable pub zero_stats : ℕ → CallsiteStats
zero_stats n = record {
  op = 0;
  rank = 0;
  csid = 0;
  tmpid = 0;
  count = 0;
  cumulative_time = 0;
  cumulative_time_squared = 0;
  max_dur = 0;
  min_dur = 0;
  max_data_sent = 0;
  min_data_sent = 0;
  max_io = 0;
  min_io = 0;
  max_rma = 0;
  min_rma = 0;
  cumulative_data_sent = 0;
  cumulative_io = 0;
  cumulative_rma = 0;
  arbitrary_message_count = 0;
  site_data = [];
  site_data_idx = 0;
  pc = replicate n 0;
  filename = replicate n none;
  functname = replicate n none;
  lineno = replicate n 0;
  cookie = 0;
}

-- `mpiPi_cs_reset_stat`
unfoldable pub cs_reset_stat : CallsiteStats → CallsiteStats
cs_reset_stat csp = record csp {
  max_dur = 0;
  min_dur = dbl_max;
  max_io = 0;
  min_io = dbl_max;
  max_data_sent = 0;
  min_data_sent = dbl_max;
  count = 0;
  cumulative_time = 0;
  cumulative_time_squared = 0;
  cumulative_data_sent = 0;
  cumulative_io = 0;
  arbitrary_message_count = 0;
}

-- for (i = 0; i < depth; i++) dst[i] = src[i]; a depth above the length of the array writes behind
-- it, so that the list gets longer. Options/Settled has that no setting leaves such a depth.
unfoldable pub copy_pcs : ℕ → List ℕ → List ℕ → List ℕ
copy_pcs zero dst src = dst
copy_pcs (suc n) [] [] = []
copy_pcs (suc n) [] (s ∷ src) = s ∷ copy_pcs n [] src
copy_pcs (suc n) (d ∷ dst) [] = d ∷ dst
copy_pcs (suc n) (d ∷ dst) (s ∷ src) = s ∷ copy_pcs n dst src

-- `mpiPi_cs_init`: `tmp_ctr` is its static counter, which is returned incremented
unfoldable pub cs_init :
    (depth : ℕ) → CallsiteStats → (pc : List ℕ) → (op rank tmp_ctr : ℕ) → CallsiteStats × ℕ
unfolding cs_reset_stat copy_pcs
cs_init depth csp pc op rank tmp_ctr =
    let keyed = record csp {
      op = op;
      rank = rank;
      pc = copy_pcs depth csp.pc pc;
      cookie = stats_cookie;
    } in
    (record (cs_reset_stat keyed) { tmpid = tmp_ctr }, tmp_ctr + 1)

-- `mpiPi_cs_update`
unfoldable pub cs_update :
    CallsiteStats → (dur send_size io_size rma_size : ℕ) → (threshold : ℤ) → CallsiteStats
cs_update csp dur send_size io_size rma_size threshold = record csp {
  count = csp.count + 1;
  cumulative_time = csp.cumulative_time + dur;
  cumulative_time_squared = csp.cumulative_time_squared + dur * dur;
  max_dur = max csp.max_dur dur;
  min_dur = min csp.min_dur dur;
  cumulative_data_sent = csp.cumulative_data_sent + send_size;
  cumulative_io = csp.cumulative_io + io_size;
  cumulative_rma = csp.cumulative_rma + rma_size;
  max_data_sent = max csp.max_data_sent send_size;
  min_data_sent = min csp.min_data_sent send_size;
  max_io = max csp.max_io io_size;
  min_io = min csp.min_io io_size;
  max_rma = max csp.max_rma rma_size;
  min_rma = min csp.min_rma rma_size;
  arbitrary_message_count =
      csp.arbitrary_message_count
      + to_nat (ltb_ℤ (negsuc 0) threshold && leb_ℤ threshold (pos send_size));
}

-- `mpiPi_cs_merge`
unfoldable pub cs_merge : (dst src : CallsiteStats) → CallsiteStats
cs_merge dst src = record dst {
  count = dst.count + src.count;
  cumulative_time = dst.cumulative_time + src.cumulative_time;
  cumulative_time_squared = dst.cumulative_time_squared + src.cumulative_time_squared;
  max_dur = max dst.max_dur src.max_dur;
  min_dur = min dst.min_dur src.min_dur;
  max_data_sent = max dst.max_data_sent src.max_data_sent;
  min_data_sent = min dst.min_data_sent src.min_data_sent;
  cumulative_data_sent = dst.cumulative_data_sent + src.cumulative_data_sent;
  max_io = max dst.max_io src.max_io;
  min_io = min dst.min_io src.min_io;
  cumulative_io = dst.cumulative_io + src.cumulative_io;
  cumulative_rma = dst.cumulative_rma + src.cumulative_rma;
  arbitrary_message_count = dst.arbitrary_message_count + src.arbitrary_message_count;
}
