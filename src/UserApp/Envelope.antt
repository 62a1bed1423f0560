-- ===== src/UserApp/Envelope.antt =====
-- The JSON texts in which the proxies of ui/nats-kv-user/src/lib.rs wrap an upstream's answer.
use nats_kv.Prelude.{ℕ, ◌++◌, map, ◌==◌, if◌then◌else◌}
use nats_kv.Text.{Text, codes, decimal}

-- `call_nats`
unfoldable pub nats_payload : ℕ → ℕ → Text → Text → Text → Text → Text
nats_payload status elapsed_us adapter_ms served_by revision body_b64 =
    codes "{\"backend\":\"nats\",\"status\":"
    ++ (decimal status
        ++ (codes ",\"upstream_us\":"
            ++ (decimal elapsed_us
                ++ (codes ",\"adapter_ms\":\""
                    ++ (adapter_ms
                        ++ (codes "\",\"served_by\":\""
                            ++ (served_by
                                ++ (codes "\",\"revision\":\""
                                    ++ (revision
                                        ++ (codes "\",\"body_b64\":\""
                                            ++ (body_b64 ++ codes "\"}")))))))))))

-- `call_cosmos`, and `json_err` with its status and time
unfoldable pub cosmos_payload : ℕ → ℕ → Text → Text → Text
cosmos_payload status elapsed_us body_b64 error =
    codes "{\"backend\":\"cosmos\",\"status\":"
    ++ (decimal status
        ++ (codes ",\"upstream_us\":"
            ++ (decimal elapsed_us
                ++ (codes ",\"body_b64\":\""
                    ++ (body_b64 ++ (codes "\",\"error\":\"" ++ (error ++ codes "\"}")))))))

-- the probes of `handle`
unfoldable pub probe_payload : ℕ → ℕ → Text → Text
probe_payload elapsed_us status body_b64 =
    codes "{\"upstream_us\":"
    ++ (decimal elapsed_us
        ++ (codes ",\"status\":"
            ++ (decimal status ++ (codes ",\"body_b64\":\"" ++ (body_b64 ++ codes "\"}")))))

-- `msg.replace('"', "'")`
unfoldable pub without_quotes : Text → Text
without_quotes msg = map (λ c. if c == b'"' then b'\'' else c) msg

unfoldable pub json_err_payload : Text → Text
unfolding without_quotes
json_err_payload msg =
    codes "{\"backend\":\"cosmos\",\"status\":500,\"upstream_us\":0,\"body_b64\":\"\",\"error\":\""
    ++ (without_quotes msg ++ codes "\"}")
