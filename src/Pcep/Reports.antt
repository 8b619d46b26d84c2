-- ===== src/Pcep/Reports.antt =====
-- PCRptMessage.DecodeFromBytes of pkg/packet/pcep/message.go: how the objects of a message are put
-- together to state reports. The loop has fuel, since it need not end.
pub mod Framed
use pce_testing.Base.{
  ℕ, zero, suc, Bool, true, false, not, ◌&&◌, ◌||◌, List, [], ◌∷◌, ◌++◌, Option, none, some, Result,
  ok, stuck, ◌>>=◌, map_err, deref, ◌==◌, if◌then◌else◌, length, drop,
}
use pce_testing.Base.Bytes.{slice}
use pce_testing.Net.{invalid}
use pce_testing.Pcep.Header.{CommonObjectHeader, decode_common_object_header}
use pce_testing.Pcep.PcErr.{decode_srp_object}
use pce_testing.Pcep.Report.{StateReport}
use pce_testing.Pcep.Report.Ero.{EroObject}
use pce_testing.Pcep.Report.Ero.Decode.{decode_ero_object}
use pce_testing.Pcep.Objects.{
  ReportError, object_error, ero_error, decode_bandwidth_object, decode_metric_object,
  decode_lspa_object, decode_lsp_object, decode_association_object,
  decode_vendor_information_object,
}

-- All objects have their zero values.
unfoldable pub new_state_report : StateReport
new_state_report = record {
  srp_object = record { object_type = 0; r_flag = false; srp_id = 0; tlvs = [] };
  lsp_object = record {
    object_type = 0;
    name = [];
    src_addr = invalid;
    dst_addr = invalid;
    plsp_id = 0;
    lsp_id = 0;
    c_flag = false;
    o_flag = 0;
    a_flag = false;
    r_flag = false;
    s_flag = false;
    d_flag = false;
    tlvs = [];
  };
  ero_object = some (record { object_type = 0; ero_subobjects = [] });
  lspa_object = record {
    object_type = 0;
    exclude_any = 0;
    include_any = 0;
    include_all = 0;
    setup_priority = 0;
    holding_priority = 0;
    l_flag = false;
  };
  metric_objects = [];
  bandwidth_objects = [];
  association_object = record {
    object_type = 0;
    r_flag = false;
    assoc_type = 0;
    assoc_id = 0;
    assoc_src = invalid;
    tlvs = [];
  };
  vendor_information_object = record { object_type = 0; enterprise_number = 0; tlvs = [] };
}

-- The decoder appends to the subobjects that are there.
unfoldable pub decode_ero_into : StateReport → ℕ → List ℕ → Result ReportError StateReport
unfolding decode_ero_object
decode_ero_into r typ body = deref r.ero_object >>= λ old.
    map_err ero_error (decode_ero_object typ body) >>= λ new. ok (record r {
      ero_object =
          some (record {
            object_type = typ;
            ero_subobjects = old.ero_subobjects ++ new.ero_subobjects;
          });
    })

-- The classes of decodeFuncs.
unfoldable pub is_registered : ℕ → Bool
is_registered c =
    c == 0x05
    || c == 0x06
    || c == 0x07
    || c == 0x09
    || c == 0x20
    || c == 0x21
    || c == 0x28
    || c == 0x22

-- The entries of decodeFuncs, of which the others than these are not called. A report that is nil
-- faults where it is written. The body comes with what lies beyond it.
unfoldable pub decode_into :
    ℕ → Option StateReport → ℕ → List ℕ → List ℕ → Result ReportError StateReport
unfolding decode_bandwidth_object decode_metric_object decode_ero_into decode_lspa_object
    decode_lsp_object decode_srp_object decode_association_object decode_vendor_information_object
decode_into class sr typ body beyond =
    if class == 0x05
    then (decode_bandwidth_object typ body >>= λ o.
        deref sr >>= λ r. ok (record r { bandwidth_objects = r.bandwidth_objects ++ (o ∷ []) }))
    else if class == 0x06
    then (decode_metric_object typ body beyond >>= λ o.
        deref sr >>= λ r. ok (record r { metric_objects = r.metric_objects ++ (o ∷ []) }))
    else if class == 0x07
    then (deref sr >>= λ r. decode_ero_into r typ body)
    else if class == 0x09
    then (deref sr >>= λ r.
        decode_lspa_object typ body beyond >>= λ o. ok (record r { lspa_object = o }))
    else if class == 0x20
    then (deref sr >>= λ r.
        decode_lsp_object r.lsp_object typ body beyond >>= λ o. ok (record r { lsp_object = o }))
    else if class == 0x21
    then (map_err object_error (decode_srp_object typ body) >>= λ o.
        deref sr >>= λ r. ok (record r { srp_object = o }))
    else if class == 0x28
    then (deref sr >>= λ r. decode_association_object r.association_object typ body beyond >>= λ o.
        ok (record r { association_object = o }))
    else (deref sr >>= λ r.
        decode_vendor_information_object r.vendor_information_object typ body >>= λ o.
        ok (record r { vendor_information_object = o }))

-- The variables of the loop: the class before, the report that is being put together, and the reports
-- of the message.
pub record Reports : Type 0 where
  pub previous : ℕ
  pub current : Option StateReport
  pub state_reports : List StateReport

-- The report is complete, if there is one.
unfoldable pub add_current : Reports → List StateReport
add_current d = elim d.current [ none ↦ d.state_reports | some r ↦ d.state_reports ++ (r ∷ []) ]

-- An SRP object starts a report, and so does an LSP object that follows no SRP object.
unfoldable pub starts_report : ℕ → ℕ → Bool
starts_report previous class = not (previous == 0x21) && class == 0x20 || class == 0x21

unfoldable pub open_report : ℕ → Reports → Reports
unfolding add_current starts_report new_state_report
open_report class d =
    if starts_report d.previous class
    then record {
      previous = d.previous;
      current = some new_state_report;
      state_reports = add_current d;
    }
    else d

-- An object of a registered class.
unfoldable pub take_object : ℕ → ℕ → List ℕ → List ℕ → Reports → Result ReportError Reports
unfolding open_report decode_into
take_object class typ body beyond d =
    let opened = open_report class d in
    decode_into class opened.current typ body beyond >>= λ r.
    ok (record { previous = class; current = some r; state_reports = opened.state_reports })

-- A round of the loop: an object of another class is skipped. The array of a body goes on with the
-- objects behind it.
unfoldable pub decode_report_object : List ℕ → Reports → Result ReportError (Reports × List ℕ)
unfolding decode_common_object_header is_registered slice take_object
decode_report_object bytes d =
    map_err object_error (decode_common_object_header bytes) >>= λ header.
    if not (is_registered header.object_class)
    then (slice bytes header.object_length (length bytes) >>= λ rest. ok (d, rest))
    else (slice bytes 4 header.object_length >>= λ body.
        take_object header.object_class header.object_type body (drop header.object_length bytes) d
        >>= λ d'. slice bytes header.object_length (length bytes) >>= λ rest. ok (d', rest))

unfoldable pub decode_report_objects : ℕ → List ℕ → Reports → Result ReportError Reports
unfolding decode_report_object
decode_report_objects fuel [] d = ok d
decode_report_objects zero (b ∷ bs) d = stuck
decode_report_objects (suc fuel) (b ∷ bs) d =
    decode_report_object (b ∷ bs) d >>= λ next. decode_report_objects fuel next.1 next.0

unfoldable pub decode_pcrpt_message : ℕ → List ℕ → Result ReportError (List StateReport)
unfolding decode_report_objects add_current
decode_pcrpt_message fuel body =
    decode_report_objects fuel body (record { previous = 0; current = none; state_reports = [] })
    >>= λ d. ok (add_current d)
