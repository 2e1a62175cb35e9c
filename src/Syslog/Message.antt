-- ===== src/Syslog/Message.antt =====
-- `read_message` of endpoints/syslog+udp/syslog_parser.cc. The record builder is seen through the
-- calls that it gets, in their order.
use libholmes_horace.Common.{
  ℕ, ◌-◌, not, ◌&&◌, List, [], ◌∷◌, ◌++◌, ◌==◌, if◌then◌else◌, length, ◌>>=◌, Error, syslog_error,
  Result, err, ok,
}
use libholmes_horace.Common.Text.{char_at}
use libholmes_horace.Syslog.{space, Reading, restoring, read_priority, read_version, read_token}
use libholmes_horace.Syslog.Fields.{
  read_rfc3164_timestamp, read_rfc5424_structured_data, read_remaining,
}

-- `add_priority` and the other operations of `log_record_builder`, with their arguments.
pub data Call : Type 0 where
  priority version : ℕ → Call
  timestamp hostname appname procid msgid structured_data message : List ℕ → Call

-- What the `try` block has come to: the index that it leaves, and the calls of the builder. An
-- exception other than `syslog_error` leaves `read_message`.
abbrev pub Progress : Type 0
Progress = Result (ℕ × List Call)

-- `catch (syslog_error&) { _index = restore; }`
unfoldable pub give_up : Error → ℕ → List Call → Progress
give_up (syslog_error m) restore calls = ok (restore, calls)
give_up e restore calls = err e

unfoldable pub try_read {ℓ} :
    {A : Type ℓ} → ℕ → List Call → Reading A → (A → ℕ → Progress) → Progress
unfolding give_up
try_read restore calls (index, ok a) k = k a index
try_read restore calls (index, err e) k = give_up e restore calls

-- The version number, where its absence is 0.
unfoldable pub optional_version : ℕ → Reading ℕ → Reading ℕ
unfolding restoring
optional_version restore (index, ok number) = (index, ok number)
optional_version restore (index, err (syslog_error m)) = (restore, ok 0)
optional_version restore (index, err e) = (index, err e)

module _ (text : List ℕ) where
  unfoldable pub read_rfc3164 : ℕ → List Call → Progress
  unfolding try_read
  read_rfc3164 restore calls = try_read restore calls (read_rfc3164_timestamp text restore) λ ts i1.
      let calls1 = calls ++ (timestamp ts ∷ []) in
      try_read i1 calls1 (read_token text i1) λ host i2. ok (i2, calls1 ++ (hostname host ∷ []))

  -- The header is read as a whole, from `index` on, where the version number ended.
  unfoldable pub read_rfc5424 : ℕ → ℕ → ℕ → List Call → Progress
  unfolding try_read
  read_rfc5424 number restore index calls = try_read restore calls (read_token text index) λ ts i1.
      try_read restore calls (read_token text i1) λ host i2.
        try_read restore calls (read_token text i2) λ app i3.
          try_read restore calls (read_token text i3) λ proc i4.
            try_read restore calls (read_token text i4) λ msg i5.
              let header =
                calls
                ++ (version number
                    ∷ timestamp ts
                    ∷ hostname host
                    ∷ appname app
                    ∷ procid proc
                    ∷ msgid msg
                    ∷ []) in
              try_read i5 header (read_rfc5424_structured_data text i5)
                λ sd i6. ok (i6, header ++ (structured_data sd ∷ []))

  -- The part after the priority.
  unfoldable pub read_rest : ℕ → List Call → Progress
  unfolding try_read optional_version read_rfc3164 read_rfc5424
  read_rest restore calls =
      try_read restore calls (optional_version restore (read_version text restore)) λ number index.
        if number == 0
        then read_rfc3164 index calls
        else if number == 1
        then read_rfc5424 number restore index calls
        else ok (index, calls)

  unfoldable pub read_parts : ℕ → Progress
  unfolding try_read read_rest
  read_parts index =
      try_read index [] (read_priority text index) λ p i1. read_rest i1 (priority p ∷ [])

  -- The message attribute.
  unfoldable pub add_remaining : ℕ → List Call → List Call
  unfolding read_remaining
  add_remaining index calls =
      if not (index == 0) && char_at text (index - 1) == space
      then calls ++ (message (read_remaining text index).1 ∷ [])
      else if not (index == length text)
      then calls ++ (message (read_remaining text index).1 ∷ [])
      else calls

  -- The calls of the builder, from the index 0 on.
  unfoldable pub read_message : Result (List Call)
  unfolding read_parts add_remaining
  read_message = do (index, calls) ← read_parts 0; ok (add_remaining index calls)
