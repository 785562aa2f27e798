-- ===== src/Ui/Filter.antt =====
-- ui/sortfiltersessionmodel.cpp: the filters, their setters, and the test of a row.
use socks5_proxy_sum_2022_co.Prelude.{
  ℕ, Bool, true, false, not, ◌&&◌, ◌||◌, [], none, some, Bytes, bytes_eq, ltb, ◌==◌, if◌then◌else◌,
}
use socks5_proxy_sum_2022_co.World.{ℤ, pos, negsuc}
use socks5_proxy_sum_2022_co.Ui.Table.{
  Qt, Field, SessionModel, Variant, model_data, variant_text, variant_int,
}

-- The filters of a `SortFilterSessionModel`.
pub record Filter (Date : Type 0) : Type 0 where
  pub user : Bytes
  pub create_date : Date
  pub update_date : Date
  pub from_date : Date
  pub to_date : Date
  pub is_active : Bytes
  pub src_endpoint : Bytes
  pub dst_endpoint : Bytes
  pub bytes_sent : ℤ
  pub bytes_recv : ℤ

abbrev pub ℤ_eq : ℤ → ℤ → Bool
ℤ_eq (pos m) (pos n) = m == n
ℤ_eq (negsuc m) (negsuc n) = m == n
ℤ_eq (pos m) (negsuc n) = false
ℤ_eq (negsuc m) (pos n) = false

-- `year() < 1970`.
abbrev pub is_early : ℤ → Bool
is_early (pos n) = ltb n 1970
is_early (negsuc n) = true

-- `Qt::AscendingOrder` or not.
unfoldable pub initial_sort_is_ascending : Field → Bool
initial_sort_is_ascending Field.user = true
initial_sort_is_ascending Field.src_endpoint = true
initial_sort_is_ascending Field.dst_endpoint = true
initial_sort_is_ascending _ = false

-- What the test reads of a row.
pub record Cells (Date : Type 0) : Type 0 where
  pub user : Bytes
  pub create_date : Date
  pub update_date : Date
  pub is_active : Bytes
  pub src_endpoint : Bytes
  pub dst_endpoint : Bytes
  pub bytes_sent : ℤ
  pub bytes_recv : ℤ

module _ {Date : Type 0} (qt : Qt Date) where
  -- The constructor; the texts and dates are those of their default constructors.
  abbrev pub no_filter : Filter Date
  no_filter = record {
    user = [];
    create_date = qt.null_date;
    update_date = qt.null_date;
    from_date = qt.null_date;
    to_date = qt.null_date;
    is_active = [];
    src_endpoint = [];
    dst_endpoint = [];
    bytes_sent = negsuc 0;
    bytes_recv = negsuc 0;
  }

  -- A date before 1970 stands for no date.
  abbrev pub settle : Date → Date
  settle date = if is_early (qt.year date) then qt.null_date else date

  -- A setter's flag says whether it calls `invalidateFilter` and emits `filterChanged`.
  unfoldable pub set_user_filter : Bytes → Filter Date → Bool × Filter Date
  set_user_filter t f = if bytes_eq f.user t then (false, f) else (true, record f { user = t })

  unfoldable pub set_create_date_filter : Date → Filter Date → Bool × Filter Date
  set_create_date_filter d f =
      if qt.same_date f.create_date (settle d)
      then (false, f)
      else (true, record f { create_date = settle d })

  unfoldable pub set_update_date_filter : Date → Filter Date → Bool × Filter Date
  set_update_date_filter d f =
      if qt.same_date f.update_date (settle d)
      then (false, f)
      else (true, record f { update_date = settle d })

  unfoldable pub set_from_date_filter : Date → Filter Date → Bool × Filter Date
  set_from_date_filter d f =
      if qt.same_date f.from_date (settle d)
      then (false, f)
      else (true, record f { from_date = settle d })

  unfoldable pub set_to_date_filter : Date → Filter Date → Bool × Filter Date
  set_to_date_filter d f =
      if qt.same_date f.to_date (settle d)
      then (false, f)
      else (true, record f { to_date = settle d })

  unfoldable pub set_is_active_filter : Bytes → Filter Date → Bool × Filter Date
  set_is_active_filter t f =
      if bytes_eq f.is_active t then (false, f) else (true, record f { is_active = t })

  unfoldable pub set_src_endpoint_filter : Bytes → Filter Date → Bool × Filter Date
  set_src_endpoint_filter t f =
      if bytes_eq f.src_endpoint t then (false, f) else (true, record f { src_endpoint = t })

  unfoldable pub set_dst_endpoint_filter : Bytes → Filter Date → Bool × Filter Date
  set_dst_endpoint_filter t f =
      if bytes_eq f.dst_endpoint t then (false, f) else (true, record f { dst_endpoint = t })

  unfoldable pub set_bytes_sent_filter : ℤ → Filter Date → Bool × Filter Date
  set_bytes_sent_filter n f =
      if ℤ_eq f.bytes_sent n then (false, f) else (true, record f { bytes_sent = n })

  unfoldable pub set_bytes_recv_filter : ℤ → Filter Date → Bool × Filter Date
  set_bytes_recv_filter n f =
      if ℤ_eq f.bytes_recv n then (false, f) else (true, record f { bytes_recv = n })

  -- One cell of a row of the model (the view asks for no other), by the model's `data` in the display role.
  abbrev pub cell : SessionModel → ℕ → Field → Variant
  cell m r field = elim (model_data qt m r field true) [ none ↦ Variant.empty | some v ↦ v ]

  unfoldable pub read_cells : SessionModel → ℕ → Cells Date
  unfolding model_data
  read_cells m r = record {
    user = variant_text qt (cell m r Field.user);
    create_date = qt.to_date (variant_text qt (cell m r Field.create_date));
    update_date = qt.to_date (variant_text qt (cell m r Field.update_date));
    is_active = variant_text qt (cell m r Field.is_active);
    src_endpoint = variant_text qt (cell m r Field.src_endpoint);
    dst_endpoint = variant_text qt (cell m r Field.dst_endpoint);
    bytes_sent = variant_int qt (cell m r Field.bytes_sent);
    bytes_recv = variant_int qt (cell m r Field.bytes_recv);
  }

  unfoldable pub accepts : Filter Date → Cells Date → Bool
  accepts f c =
      qt.contains c.user f.user
      && (not (qt.is_valid f.create_date) || qt.same_date c.create_date f.create_date)
      && (not (qt.is_valid f.update_date) || qt.same_date c.update_date f.update_date)
      && (not (qt.is_valid f.from_date) || qt.leq_date f.from_date c.update_date)
      && (not (qt.is_valid f.to_date) || qt.leq_date c.update_date f.to_date)
      && qt.contains c.is_active f.is_active
      && qt.contains c.src_endpoint f.src_endpoint
      && qt.contains c.dst_endpoint f.dst_endpoint
      && (ℤ_eq f.bytes_sent (negsuc 0) || ℤ_eq c.bytes_sent f.bytes_sent)
      && (ℤ_eq f.bytes_recv (negsuc 0) || ℤ_eq c.bytes_recv f.bytes_recv)

  unfoldable pub filter_accepts_row : Filter Date → SessionModel → ℕ → Bool
  unfolding accepts read_cells
  filter_accepts_row f m r = accepts f (read_cells m r)
