-- ===== src/Config.antt =====
-- internal/infrastructure/config/config.go. The environment, after godotenv.Load, is a function from
-- names to texts, empty where nothing is set; time.ParseDuration is a parameter. Durations are
-- nanoseconds.
pub mod Loaded
use payment_service.Base.{
  ℕ, ◌*◌, ◌^◌, Bool, ◌||◌, String, ◌<>◌, Option, none, some, str_eq, if◌then◌else◌,
}
use payment_service.Base.Int.{ℤ, pos, ltb_ℤ}
use payment_service.Base.Text.{atoi}

pub record PostgresConfig : Type 0 where
  pub host : String
  pub port : String
  pub user : String
  pub password : String
  pub db_name : String

pub record RedisConfig : Type 0 where
  pub host : String
  pub port : String

pub record RabbitMqConfig : Type 0 where
  pub host : String
  pub port : String
  pub user : String
  pub password : String
  pub vhost : String
  pub exchange : String
  pub queue : String
  pub max_retries : ℤ
  pub retry_delay : ℤ

pub record OutboxConfig : Type 0 where
  pub poll_interval : ℤ
  pub batch_size : ℤ

pub record RetryConfig : Type 0 where
  pub max_attempts : ℤ
  pub base_delay : ℤ
  pub poll_interval : ℤ
  pub batch_size : ℤ

pub record WebhookConfig : Type 0 where
  pub queue : String
  pub http_timeout : ℤ
  pub retry : RetryConfig

pub record NotificationConfig : Type 0 where
  pub queue : String
  pub channel : String

pub record Config : Type 0 where
  pub port : String
  pub postgres : PostgresConfig
  pub redis : RedisConfig
  pub rabbit_mq : RabbitMqConfig
  pub idempotency_ttl : ℤ
  pub idempotency_lock : ℤ
  pub outbox : OutboxConfig
  pub webhook : WebhookConfig
  pub psp_mock_latency : ℤ
  pub notification : NotificationConfig
  pub audit_queue : String

-- PostgresConfig.DSN
unfoldable pub dsn : PostgresConfig → String
dsn p =
    "postgres://" <> p.user <> ":" <> p.password <> "@" <> p.host <> ":" <> p.port <> "/"
    <> p.db_name <> "?sslmode=disable"

-- RedisConfig.Addr
unfoldable pub addr : RedisConfig → String
addr r = r.host <> ":" <> r.port

-- RabbitMQConfig.URL
unfoldable pub url : RabbitMqConfig → String
url r =
    let base = "amqp://" <> r.user <> ":" <> r.password <> "@" <> r.host <> ":" <> r.port in
    if str_eq r.vhost "" || str_eq r.vhost "/" then base <> "/" else base <> "/" <> r.vhost

abbrev millisecond : ℕ
millisecond = 1000000

abbrev seconds : ℕ → ℤ
seconds n = pos (n * (1000 * millisecond))

-- What Atoi makes of a text that is not empty.
abbrev pub at_least_one : ℤ → Option ℤ → ℤ
at_least_one fallback none = fallback
at_least_one fallback (some parsed) = if ltb_ℤ parsed (pos 1) then fallback else parsed

abbrev parsed_or : ℤ → Option ℤ → ℤ
parsed_or fallback none = fallback
parsed_or fallback (some parsed) = parsed

module _ (getenv : String → String) (parse_duration : String → Option ℤ) where
  -- envOrDefault
  unfoldable pub env_or_default : String → String → String
  env_or_default key fallback = if str_eq (getenv key) "" then fallback else getenv key

  -- intOrDefault
  unfoldable pub int_or_default : String → ℤ → ℤ
  int_or_default key fallback =
      if str_eq (getenv key) "" then fallback else at_least_one fallback (atoi (getenv key))

  -- durationOrDefault
  unfoldable pub duration_or_default : String → ℤ → ℤ
  duration_or_default key fallback =
      if str_eq (getenv key) "" then fallback else parsed_or fallback (parse_duration (getenv key))

  -- Load
  unfoldable pub load : Config
  load = record {
    port = env_or_default "PORT" "8080";
    idempotency_ttl = duration_or_default "IDEMPOTENCY_TTL" (seconds 86400);
    idempotency_lock = duration_or_default "IDEMPOTENCY_LOCK_TTL" (seconds 30);
    outbox = record {
      poll_interval = duration_or_default "OUTBOX_POLL_INTERVAL" (seconds 1);
      batch_size = int_or_default "OUTBOX_BATCH_SIZE" (pos 100);
    };
    webhook = record {
      queue = env_or_default "WEBHOOK_QUEUE" "webhook.payment";
      http_timeout = duration_or_default "WEBHOOK_HTTP_TIMEOUT" (seconds 5);
      retry = record {
        max_attempts = int_or_default "WEBHOOK_RETRY_MAX_ATTEMPTS" (pos 5);
        base_delay = duration_or_default "WEBHOOK_RETRY_BASE_DELAY" (seconds 30);
        poll_interval = duration_or_default "WEBHOOK_RETRY_POLL_INTERVAL" (seconds 10);
        batch_size = int_or_default "WEBHOOK_RETRY_BATCH_SIZE" (pos 100);
      };
    };
    psp_mock_latency = duration_or_default "PSP_MOCK_LATENCY" (pos 0);
    notification = record {
      queue = env_or_default "NOTIFICATION_QUEUE" "notification.payment";
      channel = env_or_default "NOTIFICATION_CHANNEL" "email";
    };
    audit_queue = env_or_default "AUDIT_QUEUE" "audit.payment";
    postgres = record {
      host = env_or_default "POSTGRES_HOST" "localhost";
      port = env_or_default "POSTGRES_PORT" "5432";
      user = env_or_default "POSTGRES_USER" "payment";
      password = env_or_default "POSTGRES_PASSWORD" "payment";
      db_name = env_or_default "POSTGRES_DB" "payment_db";
    };
    redis = record {
      host = env_or_default "REDIS_HOST" "localhost";
      port = env_or_default "REDIS_PORT" "6379";
    };
    rabbit_mq = record {
      host = env_or_default "RABBITMQ_HOST" "localhost";
      port = env_or_default "RABBITMQ_PORT" "5672";
      user = env_or_default "RABBITMQ_USER" "payment";
      password = env_or_default "RABBITMQ_PASSWORD" "payment";
      vhost = env_or_default "RABBITMQ_VHOST" "/";
      exchange = env_or_default "RABBITMQ_EXCHANGE" "payment.events";
      queue = env_or_default "RABBITMQ_QUEUE" "payment.created";
      max_retries = int_or_default "RABBITMQ_MAX_RETRIES" (pos 3);
      retry_delay = duration_or_default "RABBITMQ_RETRY_DELAY" (seconds 2);
    };
  }
