-- ===== src/H248/Server/Registration.antt =====
-- What `registrationLoop` of internal/h248/server.go waits for and what it sends: its candidates,
-- the ServiceChange of `registerTermination`, its attempts and its delays.
use megaco_sip_gateway.Prelude.{
  ℕ, zero, suc, ◌+◌, ◌*◌, ◌-◌, ◌%◌, ◌^◌, Bytes, lit, is_empty, equal_fold, Bool, false, true, not,
  ◌||◌, List, [], ◌∷◌, ◌++◌, Option, none, some, ltb, leb, length, get_or, if◌then◌else◌, ℤ, pos,
  negsuc,
}
use megaco_sip_gateway.Prelude.Decimal.{itoa}
use megaco_sip_gateway.Prelude.Strings.{trim, trim_space}
use megaco_sip_gateway.Net.{UdpAddr, split_host_port, Resolver}
use megaco_sip_gateway.H248.ServiceChange.{build_service_change}
use megaco_sip_gateway.H248.Server.Listener.{UdpServer, UdpServerConfig}

-- The ServiceChange that waits for its reply: the candidate is `(start_index + offset) % n`.
pub record Attempt : Type 0 where
  pub start_index : ℕ
  pub offset : ℕ
  pub physical : Bool
  pub transaction_id : Bytes
  pub message : Bytes
  pub attempt : ℕ
  pub delay : ℕ

-- Where the loop waits: in `registerTermination`, in `waitForMGCFailure`, for the 30 seconds after a
-- round without success; or it has returned.
pub data Loop : Type 0 where
  returned : Loop
  awaiting : Attempt → Loop
  guarding : ℕ → Loop
  pausing : ℕ → Loop

pub data Output : Type 0 where
  -- `conn.WriteToUDP([]byte(message), remote)`
  wrote : Bytes → UdpAddr → Output
  -- `HandleH248Ready` and `HandleH248Unavailable` of the bridge
  ready : UdpAddr → Output
  unavailable : UdpAddr → Output

pub record System : Type 0 where
  pub server : UdpServer
  pub loop : Loop
  pub context_done : Bool
  pub output : List Output

-- What the loop does not change, `remotes` from `ListenAndServe`
pub record Setup : Type 0 where
  pub cfg : UdpServerConfig
  pub net : Resolver
  pub remotes : List UdpAddr

abbrev pub seconds : ℕ
seconds = 1_000_000_000

abbrev pub max_retry_delay : ℕ
max_retry_delay = 30 * seconds

-- A number of the configuration, with the value that stands for one that is not positive
abbrev pub positive_or : ℕ → ℤ → ℕ
positive_or default (pos n) = elim n [ zero ↦ default | suc m ↦ suc m ]
positive_or default (negsuc n) = default

unfoldable pub max_attempts : UdpServerConfig → ℕ
max_attempts cfg = positive_or 3 cfg.service_change_max_attempts

unfoldable pub retry : UdpServerConfig → ℕ
retry cfg = positive_or 5 cfg.service_change_retry_seconds * seconds

unfoldable pub failure_timeout : UdpServerConfig → ℕ
failure_timeout cfg = positive_or 360 cfg.mgc_failure_timeout_seconds * seconds

abbrev pub no_remote : UdpAddr
no_remote = record { ip = []; port = 0 }

-- `remotes[index]`; every index of the loop is in range.
unfoldable pub remote_at : Setup → ℕ → UdpAddr
remote_at u i = get_or u.remotes i no_remote

unfoldable pub index_of : Setup → Attempt → ℕ
index_of u a = (a.start_index + a.offset) % length u.remotes

host_port : Resolver → Option (Bytes × Bytes) → Bytes
host_port net none = []
host_port net (some (host, port)) =
    if is_empty host || is_empty (trim host (lit "0."))
    then []
    else if net.is_ip host
    then b'[' ∷ (host ++ (b']' ∷ b':' ∷ port))
    else host ++ (b':' ∷ port)

-- `advertisedAddress`
unfoldable pub advertised_address : Resolver → Bytes → Bytes
unfolding host_port
advertised_address net address = host_port net (split_host_port address)

-- The ServiceChange of a termination
unfoldable pub service_change : Setup → Bytes → Bytes → Bytes
service_change u termination id =
    let root = equal_fold termination (lit "ROOT") in
    build_service_change u.net (record {
      version = u.cfg.version;
      mid = u.cfg.mid;
      raw_mid = false;
      transaction_id = id;
      termination = termination;
      method = u.cfg.service_change_method;
      reason = u.cfg.service_change_reason;
      profile = if root then u.cfg.service_change_profile else [];
      address =
          if not root
          then []
          else if is_empty u.cfg.service_change_address
          then advertised_address u.net u.cfg.address
          else u.cfg.service_change_address;
    })

termination_of : Setup → Bool → Bytes
termination_of u physical = if physical then trim_space u.cfg.physical_termination else lit "ROOT"

-- `time.Now().UnixNano()&0x7fffffff`
unfoldable pub transaction_at : ℕ → Bytes
transaction_at now = itoa (now % 2 ^ 31)

unfoldable pub first_attempt : Setup → ℕ → ℕ → Bool → ℕ → Attempt
unfolding termination_of
first_attempt u start offset physical now = record {
  start_index = start;
  offset = offset;
  physical = physical;
  transaction_id = transaction_at now;
  message = service_change u (termination_of u physical) (transaction_at now);
  attempt = 1;
  delay = retry u.cfg;
}

-- The delay after one that has passed
unfoldable pub longer : ℕ → ℕ
longer delay =
    if ltb delay max_retry_delay
    then (if ltb max_retry_delay (delay * 2) then max_retry_delay else delay * 2)
    else delay

-- Whether `now.Sub(lastActivity) >= timeout`; the zero time is longer ago than any timeout.
unfoldable pub is_silent : UdpServerConfig → ℕ → Option ℕ → Bool
is_silent cfg now none = true
is_silent cfg now (some last) = leb (failure_timeout cfg) (now - last)

remote_of : Resolver → Bytes → Option (List UdpAddr) → Option (List UdpAddr)
remote_of net address none = none
remote_of net address (some rest) =
    if is_empty (trim_space address)
    then some rest
    else elim (net.resolve address) [ none ↦ none | some remote ↦ some (remote ∷ rest) ]

-- The candidates of `ListenAndServe`, `none` for an address that is not resolved
unfoldable pub remotes_of : Resolver → UdpServerConfig → Option (List UdpAddr)
unfolding remote_of
remotes_of net cfg =
    if is_empty cfg.mgc
    then some []
    else remote_of net cfg.mgc (remote_of net cfg.backup_mgc (some []))
