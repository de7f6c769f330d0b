-- ===== src/RateLimiter/Verdicts/Limit.antt =====
-- viewer/ratelimit.go: how many calls any window can hold.
