-- ===== src/Billing/Amounts.antt =====
-- viewer/billing.go: the exact amount that identifies an invoice.
